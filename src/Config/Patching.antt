-- ===== src/Config/Patching.antt =====
-- What a patch of the configuration of src/config.ts changes.
use cursor_claw.Base.{
  ◌≡◌, ◌⊎◌, inl, inr, refl, sym, ap, ◌∙◌, eq_of_==, Bool, false, ◌&&◌, ◌||◌, Option, none, some,
  List, [], ◌∷◌, String, arith, if◌then◌else◌, ◌==◌, string_eq, mem, ==_refl, Bool-cases,
}
use cursor_claw.Config.{
  Value, undefined, null, text, other, array, object, Fields, no_fields, field, lookup, assign,
  merge, merge_entry, merge_into, patchable_config_keys, filter_keys, assign_defined,
  merge_config_patch, config_patch, patch_gateway, bound_gateway, fields_of, bind_of,
  bind_address_of, assign_text, with_gateway, is_undefined,
}

pub lookup-assign :
    (k j : String) (v : Value) (fs : Fields)
    → lookup j (assign k v fs) ≡ (if k == j then v else lookup j fs)
unfolding lookup assign
lookup-assign k j v no_fields = refl
lookup-assign k j v (field i w fs) = ground (
  arith,
  string_eq.is_same_iff k j,
  string_eq.is_same_iff i k,
  string_eq.is_same_iff i j,
  lookup-assign k j v fs,
)

lookup-assign_other :
    (k j : String) (v : Value) (fs : Fields)
    → (k == j) ≡ false
    → lookup j (assign k v fs) ≡ lookup j fs
lookup-assign_other k j v fs h = ground (arith, lookup-assign k j v fs, h)

lookup-assign_same : (k : String) (v : Value) (fs : Fields) → lookup k (assign k v fs) ≡ v
lookup-assign_same k v fs = rw (lookup-assign k k v fs, ==_refl k)

-- What an entry of the override makes of the current value of its key.
abbrev pub merged_value : (override current : Value) → Value
merged_value undefined c = c
merged_value null c = null
merged_value (text t) c = text t
merged_value (other n) c = other n
merged_value (array fs) c = array fs
merged_value (object fs) (object cs) = object (merge fs cs)
merged_value (object fs) (array cs) = object (merge fs cs)
merged_value (object fs) undefined = object fs
merged_value (object fs) null = object fs
merged_value (object fs) (text t) = object fs
merged_value (object fs) (other n) = object fs

lookup-merge_into_same :
    (k : String) (fs : Fields) (c : Value) (out : Fields)
    → lookup k (merge_into k fs (merge fs) c out) ≡ merged_value (object fs) c
lookup-merge_into_same k fs undefined out = lookup-assign_same k _ out
lookup-merge_into_same k fs null out = lookup-assign_same k _ out
lookup-merge_into_same k fs (text t) out = lookup-assign_same k _ out
lookup-merge_into_same k fs (other n) out = lookup-assign_same k _ out
lookup-merge_into_same k fs (array cs) out = lookup-assign_same k _ out
lookup-merge_into_same k fs (object cs) out = lookup-assign_same k _ out

lookup-merge_into_other :
    (k j : String) (fs : Fields) (c : Value) (out : Fields)
    → (k == j) ≡ false
    → lookup j (merge_into k fs (merge fs) c out) ≡ lookup j out
lookup-merge_into_other k j fs undefined out h = lookup-assign_other k j _ out h
lookup-merge_into_other k j fs null out h = lookup-assign_other k j _ out h
lookup-merge_into_other k j fs (text t) out h = lookup-assign_other k j _ out h
lookup-merge_into_other k j fs (other n) out h = lookup-assign_other k j _ out h
lookup-merge_into_other k j fs (array cs) out h = lookup-assign_other k j _ out h
lookup-merge_into_other k j fs (object cs) out h = lookup-assign_other k j _ out h

lookup-merge_entry_same :
    (v : Value) (k : String) (out : Fields)
    → lookup k (merge_entry v k out) ≡ merged_value v (lookup k out)
unfolding merge_entry
lookup-merge_entry_same undefined k out = refl
lookup-merge_entry_same null k out = lookup-assign_same k _ out
lookup-merge_entry_same (text t) k out = lookup-assign_same k _ out
lookup-merge_entry_same (other n) k out = lookup-assign_same k _ out
lookup-merge_entry_same (array fs) k out = lookup-assign_same k _ out
lookup-merge_entry_same (object fs) k out = lookup-merge_into_same k fs (lookup k out) out

lookup-merge_entry_other :
    (v : Value) (k j : String) (out : Fields)
    → (k == j) ≡ false
    → lookup j (merge_entry v k out) ≡ lookup j out
unfolding merge_entry
lookup-merge_entry_other undefined k j out h = refl
lookup-merge_entry_other null k j out h = lookup-assign_other k j _ out h
lookup-merge_entry_other (text t) k j out h = lookup-assign_other k j _ out h
lookup-merge_entry_other (other n) k j out h = lookup-assign_other k j _ out h
lookup-merge_entry_other (array fs) k j out h = lookup-assign_other k j _ out h
lookup-merge_entry_other (object fs) k j out h = lookup-merge_into_other k j fs (lookup k out) out h

abbrev pub has_key : String → Fields → Bool
has_key k no_fields = false
has_key k (field j v fs) = j == k || has_key k fs

-- No key twice, as in every object.
abbrev pub HasDistinctKeys : Fields → Type 0
HasDistinctKeys no_fields = Unit
HasDistinctKeys (field k v fs) = (has_key k fs ≡ false) × HasDistinctKeys fs

lookup-merge_absent :
    (o b : Fields) (j : String) → has_key j o ≡ false → lookup j (merge o b) ≡ lookup j b
unfolding merge
lookup-merge_absent no_fields b j h = refl
lookup-merge_absent (field k v o) b j h =
    lookup-merge_absent o (merge_entry v k b) j (ground (arith, h))
    ∙ lookup-merge_entry_other v k j b (ground (arith, h))

-- Merging decides each key on its own: a key that the override lacks, or has as undefined, keeps
-- its value, an object is merged into an object or an array, and any other value replaces what was
-- there. The override has no key twice.
pub lookup-merge :
    (o b : Fields) (j : String)
    → HasDistinctKeys o
    → lookup j (merge o b) ≡ merged_value (lookup j o) (lookup j b)
unfolding merge lookup
lookup-merge no_fields b j d = refl
lookup-merge (field k v o) b j d = elim (Bool-cases (k == j)) [
  | inl same ↦
      let e = eq_of_== k j same in
      rw same (
        lookup-merge_absent o (merge_entry v k b) j (rw e at d.0)
        ∙ rw (sym e) (lookup-merge_entry_same v k b))
  | inr other_key ↦ rw other_key (
      lookup-merge o (merge_entry v k b) j d.1
      ∙ ap (merged_value (lookup j o)) (lookup-merge_entry_other v k j b other_key))
]

has_key-assign :
    (j k : String) (v : Value) (fs : Fields)
    → (k == j) ≡ false
    → has_key j (assign k v fs) ≡ has_key j fs
unfolding assign
has_key-assign j k v no_fields h = ground (arith, h)
has_key-assign j k v (field i w fs) h =
    ground (arith, h, string_eq.is_same_iff i k, has_key-assign j k v fs h)

has_key-assign_defined :
    (j k : String) (v : Value) (fs : Fields)
    → (k == j) ≡ false
    → has_key j (assign_defined k v fs) ≡ has_key j fs
has_key-assign_defined j k undefined fs h = refl
has_key-assign_defined j k null fs h = has_key-assign j k null fs h
has_key-assign_defined j k (text t) fs h = has_key-assign j k (text t) fs h
has_key-assign_defined j k (other n) fs h = has_key-assign j k (other n) fs h
has_key-assign_defined j k (array as') fs h = has_key-assign j k (array as') fs h
has_key-assign_defined j k (object os) fs h = has_key-assign j k (object os) fs h

has_key-filter_keys :
    (ks : List String) (partial out : Fields) (j : String)
    → mem j ks ≡ false
    → has_key j (filter_keys ks partial out) ≡ has_key j out
unfolding filter_keys
has_key-filter_keys [] partial out j h = refl
has_key-filter_keys (k ∷ ks) partial out j h =
    has_key-filter_keys ks partial (assign_defined k (lookup k partial) out) j (ground (arith, h))
    ∙ has_key-assign_defined j k (lookup k partial) out (ground (arith, h))

lookup-merge_config_patch_absent :
    (current partial : Fields) (allowed : List String) (j : String)
    → mem j allowed ≡ false
    → lookup j (merge_config_patch current partial allowed) ≡ lookup j current
unfolding merge_config_patch
lookup-merge_config_patch_absent current partial allowed j h =
    lookup-merge_absent (filter_keys allowed partial no_fields) current j
      (has_key-filter_keys allowed partial no_fields j h)

lookup-assign_text_other :
    (k j : String) (t : Option String) (fs : Fields)
    → (k == j) ≡ false
    → lookup j (assign_text k t fs) ≡ lookup j fs
lookup-assign_text_other k j none fs h = refl
lookup-assign_text_other k j (some t) fs h = lookup-assign_other k j (text t) fs h

lookup-bound_gateway_other :
    (trim : String → String) (gateway patched : Fields) (j : String)
    → ("bind" == j) ≡ false
    → ("bindAddress" == j) ≡ false
    → lookup j (bound_gateway trim gateway patched) ≡ lookup j gateway
unfolding bound_gateway
lookup-bound_gateway_other trim gateway patched j h k =
    lookup-assign_text_other "bind" j (bind_of (lookup "bind" patched))
      (assign_text "bindAddress" (bind_address_of trim (lookup "bindAddress" patched)) gateway) h
    ∙ lookup-assign_text_other "bindAddress" j (bind_address_of trim (lookup "bindAddress" patched))
        gateway k

-- A field of the gateway in a configuration.
abbrev pub gateway_field : String → Fields → Value
gateway_field j config = lookup j (fields_of (lookup "gateway" config))

-- How a configuration comes out of the second part of a patch.
abbrev Bound : (trim : String → String) (updated c : Fields) → Type 0
Bound trim updated c =
    (updated ≡ c)
    ⊎ ((p : Fields) × (assign "gateway"
            (object (bound_gateway trim (fields_of (lookup "gateway" updated)) p)) updated
          ≡ c))

patch_gateway-Bound :
    (trim : String → String) (valid : String → Bool) (updated p c : Fields)
    → patch_gateway trim valid updated p ≡ some c
    → Bound trim updated c
unfolding patch_gateway
patch_gateway-Bound trim valid updated p c h =
    elim (Bool-cases (is_undefined (lookup "bindAddress" p) && is_undefined (lookup "bind" p))) [
      | inl absent ↦ inl (ground (arith, rw absent at h))
      | inr present ↦ inr (p, ground (arith, rw present at h))
    ]

with_gateway-Bound :
    (trim : String → String) (valid : String → Bool) (updated : Fields) (v : Value) (c : Fields)
    → with_gateway trim valid updated v ≡ some c
    → Bound trim updated c
with_gateway-Bound trim valid updated undefined c h = inl (cc)
with_gateway-Bound trim valid updated null c h = inl (cc)
with_gateway-Bound trim valid updated (text t) c h = inl (cc)
with_gateway-Bound trim valid updated (other n) c h = inl (cc)
with_gateway-Bound trim valid updated (array p) c h = patch_gateway-Bound trim valid updated p c h
with_gateway-Bound trim valid updated (object p) c h = patch_gateway-Bound trim valid updated p c h

lookup-Bound :
    (trim : String → String) (updated c : Fields) (i : String)
    → Bound trim updated c
    → ("gateway" == i) ≡ false
    → lookup i c ≡ lookup i updated
lookup-Bound trim updated c i (inl e) h = ap (lookup i) (sym e)
lookup-Bound trim updated c i (inr (p, e)) h =
    ap (lookup i) (sym e)
    ∙ lookup-assign_other "gateway" i
        (object (bound_gateway trim (fields_of (lookup "gateway" updated)) p)) updated h

gateway_field-Bound :
    (trim : String → String) (updated c : Fields) (j : String)
    → Bound trim updated c
    → ("bind" == j) ≡ false
    → ("bindAddress" == j) ≡ false
    → gateway_field j c ≡ gateway_field j updated
gateway_field-Bound trim updated c j (inl e) h k = ap (gateway_field j) (sym e)
gateway_field-Bound trim updated c j (inr (p, e)) h k =
    ap (gateway_field j) (sym e)
    ∙ ap (λ (v : Value). lookup j (fields_of v))
        (lookup-assign_same "gateway"
          (object (bound_gateway trim (fields_of (lookup "gateway" updated)) p)) updated)
    ∙ lookup-bound_gateway_other trim (fields_of (lookup "gateway" updated)) p j h k

-- Whatever `config.patch` is sent, a configuration that it sets has each top-level key that is
-- neither patchable nor the gateway as before, and each field of the gateway, its authentication
-- included, but `bind` and `bindAddress`.
pub config_patch-protected :
    (trim : String → String) (valid : String → Bool) (current partial c : Fields) (i j : String)
    → config_patch trim valid current partial ≡ some c
    → mem i patchable_config_keys ≡ false
    → ("gateway" == i) ≡ false
    → ("bind" == j) ≡ false
    → ("bindAddress" == j) ≡ false
    → (lookup i c ≡ lookup i current) × (gateway_field j c ≡ gateway_field j current)
unfolding config_patch
config_patch-protected trim valid current partial c i j e m g h k =
    let updated = merge_config_patch current partial patchable_config_keys in
    let b = with_gateway-Bound trim valid updated (lookup "gateway" partial) c e in
    (
      lookup-Bound trim updated c i b g
          ∙ lookup-merge_config_patch_absent current partial patchable_config_keys i m,
      gateway_field-Bound trim updated c j b h k
          ∙ ap (λ (v : Value). lookup j (fields_of v))
              (lookup-merge_config_patch_absent current partial patchable_config_keys "gateway"
                refl),
    )
