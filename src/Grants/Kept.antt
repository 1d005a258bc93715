-- ===== src/Grants/Kept.antt =====
-- Where the tools of the registry come from (src/bearpit/core/tools.py, `tool_registry`).
use bearpit.Base.{
  String, Bool, true, false, not, ◌≡◌, refl, sym, ap, ◌∙◌, List, [], ◌∷◌, Option, none, some,
  if◌then◌else◌, contains, arith, eq_iff, ◌==◌,
}
use bearpit.Base.Dict.{lookup, has_key, insert, lookup-insert}
use bearpit.Grants.Registry.{
  ToolProfile, valid_tool_name, builtin_verbs, Contribution, profile, foreign, Plugin, unusable,
  failing, contributes, Registry, accept, accept_all, add_plugin, tool_registry,
}

-- A name that a plugin may register.
pub record IsFree (name : String) (p : ToolProfile) : Type 0 where
  pub own : p.name ≡ name
  pub valid : valid_tool_name name ≡ true
  pub no_verb : contains name builtin_verbs ≡ false

-- The profile under a name is the one that stood there, or stands where none did.
pub data Origin (found : Registry) (name : String) (p : ToolProfile) : Type 0 where
  kept : lookup name found ≡ some p → Origin found name p
  contributed : lookup name found ≡ none → IsFree name p → Origin found name p

abbrev name_in : String → Option ToolProfile → String
name_in name none = name
name_in name (some p) = p.name

accept-Origin :
    (into : Registry) (c : Contribution) (name : String) (p : ToolProfile)
    → lookup name (accept into c) ≡ some p
    → Origin into name p
accept-Origin into foreign name p e = kept e
accept-Origin into (profile q) name p e =
    by_valid (valid_tool_name q.name) refl (contains q.name builtin_verbs) refl
      (has_key q.name into) refl e
  where
    by_same :
        (b : Bool)
        → (q.name == name) ≡ b
        → valid_tool_name q.name ≡ true
        → contains q.name builtin_verbs ≡ false
        → has_key q.name into ≡ false
        → (if b then some q else lookup name into) ≡ some p
        → Origin into name p
    by_same false i v n h found = kept found
    by_same true i v n h found =
        let same : q.name ≡ name = ground (arith, eq_iff q.name name, i) in
        contributed (ground (arith, same, h)) (record {
          own = sym (ap (name_in name) found) ∙ same;
          valid = ap valid_tool_name (sym same) ∙ v;
          no_verb = ap (λ s. contains s builtin_verbs) (sym same) ∙ n;
        })

    by_valid :
        (x : Bool)
        → valid_tool_name q.name ≡ x
        → (y : Bool) → contains q.name builtin_verbs ≡ y
        → (z : Bool) → has_key q.name into ≡ z
        → lookup name
            (if not x then into else if y then into else if z then into else insert q.name q into)
          ≡ some p
        → Origin into name p
    by_valid false v y n z h found = kept found
    by_valid true v true n z h found = kept found
    by_valid true v false n true h found = kept found
    by_valid true v false n false h found =
        by_same (q.name == name) refl v n h (sym (lookup-insert q.name name q into) ∙ found)

-- No name goes.
accept-absent :
    (into : Registry) (c : Contribution) (name : String)
    → lookup name (accept into c) ≡ none
    → lookup name into ≡ none
accept-absent into foreign name e = e
accept-absent into (profile q) name e =
    by_test (valid_tool_name q.name) (contains q.name builtin_verbs) (has_key q.name into) e
  where
    by_same : (b : Bool) → (if b then some q else lookup name into) ≡ none → lookup name into ≡ none
    by_same true h = cc
    by_same false h = h

    by_test :
        (x y z : Bool)
        → lookup name
            (if not x then into else if y then into else if z then into else insert q.name q into)
          ≡ none
        → lookup name into ≡ none
    by_test false y z h = h
    by_test true true z h = h
    by_test true false true h = h
    by_test true false false h =
        by_same (q.name == name) (sym (lookup-insert q.name name q into) ∙ h)

-- What is known of a later registry is known of the one before it.
Origin-back :
    (before after : Registry) (name : String) (p : ToolProfile)
    → (lookup name after ≡ some p → Origin before name p)
    → (lookup name after ≡ none → lookup name before ≡ none)
    → Origin after name p
    → Origin before name p
Origin-back before after name p back gone (kept e) = back e
Origin-back before after name p back gone (contributed e free) = contributed (gone e) free

accept_all-absent :
    (into : Registry) (cs : List Contribution) (name : String)
    → lookup name (accept_all into cs) ≡ none
    → lookup name into ≡ none
accept_all-absent into [] name e = e
accept_all-absent into (c ∷ cs) name e =
    accept-absent into c name (accept_all-absent (accept into c) cs name e)

accept_all-Origin :
    (into : Registry) (cs : List Contribution) (name : String) (p : ToolProfile)
    → lookup name (accept_all into cs) ≡ some p
    → Origin into name p
accept_all-Origin into [] name p e = kept e
accept_all-Origin into (c ∷ cs) name p e =
    Origin-back into (accept into c) name p (accept-Origin into c name p)
      (accept-absent into c name) (accept_all-Origin (accept into c) cs name p e)

add_plugin-Origin :
    (found : Registry) (plugin : Plugin) (name : String) (p : ToolProfile)
    → lookup name (add_plugin found plugin) ≡ some p
    → Origin found name p
add_plugin-Origin found unusable name p e = kept e
add_plugin-Origin found failing name p e = kept e
add_plugin-Origin found (contributes cs) name p e = accept_all-Origin found cs name p e

add_plugin-absent :
    (found : Registry) (plugin : Plugin) (name : String)
    → lookup name (add_plugin found plugin) ≡ none
    → lookup name found ≡ none
add_plugin-absent found unusable name e = e
add_plugin-absent found failing name e = e
add_plugin-absent found (contributes cs) name e = accept_all-absent found cs name e

-- Whatever the plugins do, the profile under a name of the registry is the built-in one, or stands
-- where no built-in does, under its own name, which has the form of a tool's name and is no verb of
-- the realm tools.
pub tool_registry-Origin :
    (found : Registry) (plugins : List Plugin) (name : String) (p : ToolProfile)
    → lookup name (tool_registry found plugins) ≡ some p
    → Origin found name p
unfolding tool_registry
tool_registry-Origin found [] name p e = kept e
tool_registry-Origin found (x ∷ plugins) name p e =
    Origin-back found (add_plugin found x) name p (add_plugin-Origin found x name p)
      (add_plugin-absent found x name) (tool_registry-Origin (add_plugin found x) plugins name p e)
