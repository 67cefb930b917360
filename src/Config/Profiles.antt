-- ===== src/Config/Profiles.antt =====
-- The profiles and the credentials of src/config.ts. A text is the list of its UTF-16 code units;
-- `resolve` and `sep` of node's path, `trim` and `toLowerCase` are arguments.
pub mod Roots
use cursor_claw.Base.{
  ℕ, Bool, true, false, not, ◌&&◌, ◌||◌, Option, none, some, List, [], ◌∷◌, ◌++◌, eqb,
  if◌then◌else◌, ◌==◌, codes_eq, mem, find,
}

abbrev pub Text : Type 0
Text = List ℕ

pub record Profile : Type 0 where
  pub id : Text
  pub root : Text
  pub model_id : Option Text

-- `models` are the names of the models.
pub record Profiles : Type 0 where
  pub profiles : List Profile
  pub models : List Text
  pub default_model : Text

abbrev pub default_id : Text
default_id = b'd' ∷ b'e' ∷ b'f' ∷ b'a' ∷ b'u' ∷ b'l' ∷ b't' ∷ []

abbrev pub first_id : List Profile → Text
first_id [] = default_id
first_id (p ∷ ps) = p.id

unfoldable pub get_default_profile_id : Profiles → Text
get_default_profile_id c = first_id c.profiles

-- `list.find(...) ?? list[0]`.
abbrev pub found_or : Option Profile → Profile → Profile
found_or none p = p
found_or (some q) p = q

abbrev pub profile_of : (id : Text) → List Profile → Option Profile
profile_of id [] = none
profile_of id (p ∷ ps) = some (found_or (find (λ q. q.id == id) (p ∷ ps)) p)

abbrev pub known_model : Profiles → Option Text → Text
known_model c none = c.default_model
known_model c (some m) = if mem m c.models then m else c.default_model

abbrev pub model_of : Profiles → Option Profile → Text
model_of c none = c.default_model
model_of c (some p) = known_model c p.model_id

unfoldable pub get_model_id_for_profile : Profiles → (profile_id : Text) → Text
get_model_id_for_profile c profile_id = model_of c (profile_of profile_id c.profiles)

-- Node's path module.
pub record Paths : Type 0 where
  pub resolve : Text → Text → Text
  pub resolve_one : Text → Text
  pub sep : Text

abbrev pub starts_with : (prefix s : Text) → Bool
starts_with [] s = true
starts_with (c ∷ prefix) [] = false
starts_with (c ∷ prefix) (d ∷ s) = eqb c d && starts_with prefix s

-- A suffix test, over any ending of the text.
abbrev pub ends_with : (suffix s : Text) → Bool
ends_with suffix [] = suffix == []
ends_with suffix (c ∷ s) = suffix == (c ∷ s) || ends_with suffix s

unfoldable pub prefix_of : Paths → (base : Text) → Text
prefix_of p base = if ends_with p.sep base then base else base ++ p.sep

abbrev pub relative_root : (default_profile_root : Text) → Profile → Text
relative_root d p =
    if p.id == default_id && (p.root == b'.' ∷ [] || p.root == []) then d else p.root

unfoldable pub check_root : Paths → (base candidate : Text) → Option Text
unfolding prefix_of
check_root p base candidate =
    if not (candidate == base) && not (starts_with (prefix_of p base) candidate)
    then none
    else some candidate

abbrev pub root_of :
    Paths → (default_profile_root workspace_dir : Text) → Option Profile → Option Text
root_of p d workspace_dir none = some (p.resolve_one workspace_dir)
root_of p d workspace_dir (some q) =
    check_root p (p.resolve_one workspace_dir)
      (p.resolve (p.resolve_one workspace_dir) (relative_root d q))

abbrev pub id_or_default : Option Text → Profiles → Text
id_or_default none c = get_default_profile_id c
id_or_default (some id) c = id

-- `none` is the error that the root is not under the workspace.
unfoldable pub resolve_profile_root :
    Paths
    → (default_profile_root workspace_dir : Text) → Profiles
    → (profile_id : Option Text) → Option Text
unfolding check_root get_default_profile_id
resolve_profile_root p d workspace_dir c profile_id =
    root_of p d workspace_dir (profile_of (id_or_default profile_id c) c.profiles)

-- The credentials of the gateway, by what the checks read.
pub record Credentials : Type 0 where
  pub is_no_auth : Bool
  pub token : Option Text
  pub password : Option Text

abbrev pub is_given : Option Text → Bool
is_given none = false
is_given (some t) = not (t == [])

-- Whether `loadConfig` accepts the merged configuration.
unfoldable pub load_config_accepts : Credentials → Bool
load_config_accepts c = c.is_no_auth || (is_given c.token || is_given c.password)

abbrev changeme : Text
changeme = b'c' ∷ b'h' ∷ b'a' ∷ b'n' ∷ b'g' ∷ b'e' ∷ b'm' ∷ b'e' ∷ []

abbrev literals : List Text
literals =
    (b'u' ∷ b'n' ∷ b'd' ∷ b'e' ∷ b'f' ∷ b'i' ∷ b'n' ∷ b'e' ∷ b'd' ∷ [])
    ∷ (b'n' ∷ b'u' ∷ b'l' ∷ b'l' ∷ [])
    ∷ []

abbrev pub is_placeholder : (trim : Text → Text) → Option Text → Bool
is_placeholder trim none = false
is_placeholder trim (some t) = trim t == changeme

unfoldable pub is_literal_nullish_token : (trim lower : Text → Text) → Option Text → Bool
is_literal_nullish_token trim lower none = false
is_literal_nullish_token trim lower (some t) = mem (lower (trim t)) literals

unfoldable pub validate_startup_config :
    (trim lower : Text → Text) (allow_insecure_defaults : Bool) → Credentials → Bool
unfolding is_literal_nullish_token
validate_startup_config trim lower allow_insecure_defaults c =
    allow_insecure_defaults
    || (c.is_no_auth
        || (not (is_placeholder trim c.token || is_placeholder trim c.password)
            && not (
                is_literal_nullish_token trim lower c.token
                || is_literal_nullish_token trim lower c.password)))
