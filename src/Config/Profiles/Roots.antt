-- ===== src/Config/Profiles/Roots.antt =====
-- Where the profiles of src/config.ts have their files.
use cursor_claw.Base.{◌≡◌, ◌⊎◌, inl, refl, true, Option, none, some, arith, codes_eq, mem}
use cursor_claw.Config.Profiles.{
  Text, Profile, Profiles, Paths, starts_with, prefix_of, check_root, root_of, relative_root,
  profile_of, id_or_default, resolve_profile_root, get_model_id_for_profile, known_model, model_of,
}

check_root-under :
    (p : Paths) (base candidate r : Text)
    → check_root p base candidate ≡ some r
    → (r ≡ base) ⊎ (starts_with (prefix_of p base) r ≡ true)
unfolding check_root
check_root-under p base candidate r h = ground (arith, h, codes_eq.is_same_iff candidate base)

root_of-under :
    (p : Paths) (d w : Text) (o : Option Profile) (r : Text)
    → root_of p d w o ≡ some r
    → (r ≡ p.resolve_one w) ⊎ (starts_with (prefix_of p (p.resolve_one w)) r ≡ true)
root_of-under p d w none r h = inl (cc)
root_of-under p d w (some q) r h =
    check_root-under p (p.resolve_one w) (p.resolve (p.resolve_one w) (relative_root d q)) r h

-- Whatever the profiles are, a root that is resolved is the workspace or a path below it.
pub resolve_profile_root-under :
    (p : Paths) (d w : Text) (c : Profiles) (profile_id : Option Text) (r : Text)
    → resolve_profile_root p d w c profile_id ≡ some r
    → (r ≡ p.resolve_one w) ⊎ (starts_with (prefix_of p (p.resolve_one w)) r ≡ true)
unfolding resolve_profile_root
resolve_profile_root-under p d w c profile_id r h =
    root_of-under p d w (profile_of (id_or_default profile_id c) c.profiles) r h

known_model-known :
    (c : Profiles) (o : Option Text)
    → (known_model c o ≡ c.default_model) ⊎ (mem (known_model c o) c.models ≡ true)
known_model-known c none = inl refl
known_model-known c (some m) = ground arith

model_of-known :
    (c : Profiles) (o : Option Profile)
    → (model_of c o ≡ c.default_model) ⊎ (mem (model_of c o) c.models ≡ true)
model_of-known c none = inl refl
model_of-known c (some p) = known_model-known c p.model_id

-- The model of a profile is the default model or one that is configured.
pub get_model_id_for_profile-known :
    (c : Profiles) (profile_id : Text)
    → (get_model_id_for_profile c profile_id ≡ c.default_model)
      ⊎ (mem (get_model_id_for_profile c profile_id) c.models ≡ true)
unfolding get_model_id_for_profile
get_model_id_for_profile-known c profile_id = model_of-known c (profile_of profile_id c.profiles)
