-- ===== src/Machine/Recovery/Escrow.antt =====
-- Effects under two escrows (src/bearpit/realmtools/machine.py, `apply_effect`).
use bearpit.Base.{ℕ, String, ◌≡◌, refl, ap, List, [], ◌∷◌}
use mathlib.Core.Path.{fun_ext, ap₂}
use bearpit.Base.Dict.{Dict}
use bearpit.Base.StrSet.{StrSet, add, discard}
use bearpit.Base.Outcome.{Py, ok, ◌>>=◌}
use bearpit.Value.{Value, null, str, dict, get_or_null}
use bearpit.Machine.Decl.{EffectName, Effect, MachineDef, fields_of}
use bearpit.Machine.State.{Bindings, MachineState, Ctx, resolve}
use bearpit.Machine.Pointer.{set_actor, Step}
use bearpit.Machine.Effects.{
  mark, marked_value, actor_arg, and_then, reveal_owners, apply_named, apply_effect, apply_effects,
}
use bearpit.Machine.Act.{act_ctx}

module _ (caller : String) (args : Dict Value) (bindings : Bindings) where
  -- The context of the call, with some escrow.
  abbrev pub with_escrow : Dict StrSet → Ctx
  with_escrow e = act_ctx caller args e

  pub resolve-escrow :
      (v : Value) (s : MachineState) (e f : Dict StrSet)
      → resolve v (with_escrow e) s ≡ resolve v (with_escrow f) s
  unfolding resolve
  resolve-escrow (str t) s e f = refl
  resolve-escrow null s e f = refl
  resolve-escrow _ s e f = refl

  reveal_owners-escrow :
      (v : Value) (s : MachineState) (e f : Dict StrSet)
      → reveal_owners v bindings s (with_escrow e) ≡ reveal_owners v bindings s (with_escrow f)
  unfolding reveal_owners resolve
  reveal_owners-escrow (dict d) s e f = refl
  reveal_owners-escrow (str t) s e f = refl
  reveal_owners-escrow _ s e f = refl

  marked_value-escrow :
      (arg : Value) (s : MachineState) (e f : Dict StrSet)
      → marked_value arg (with_escrow e) s ≡ marked_value arg (with_escrow f) s
  marked_value-escrow arg s e f = resolve-escrow (get_or_null "value" (fields_of arg)) s e f

  module _ (defn : MachineDef) where
    apply_named-escrow :
        (n : EffectName) (arg : Value) (s : MachineState) (e f : Dict StrSet) (now : ℕ)
        → apply_named n arg defn bindings s (with_escrow e) now
          ≡ apply_named n arg defn bindings s (with_escrow f) now
    unfolding apply_named
    apply_named-escrow EffectName.add_to arg s e f now =
        ap (mark add (fields_of arg) defn bindings s) (marked_value-escrow arg s e f)
    apply_named-escrow EffectName.remove_from arg s e f now =
        ap (mark discard (fields_of arg) defn bindings s) (marked_value-escrow arg s e f)
    apply_named-escrow EffectName.set arg s e f now = simp (marked_value-escrow arg s e f)
    apply_named-escrow EffectName.set_actor arg s e f now =
        ap (λ v. ok (set_actor defn bindings s (actor_arg v) now)) (resolve-escrow arg s e f)
    apply_named-escrow EffectName.reveal arg s e f now =
        simp (reveal_owners-escrow (get_or_null "owners" (fields_of arg)) s e f)
    apply_named-escrow _ arg s e f now = refl

    pub apply_effects-escrow :
        (es : List Effect) (s : MachineState) (e f : Dict StrSet) (now : ℕ)
        → apply_effects es defn bindings s (with_escrow e) now
          ≡ apply_effects es defn bindings s (with_escrow f) now
    unfolding apply_effects apply_effect
    apply_effects-escrow [] s e f now = refl
    apply_effects-escrow (x ∷ es) s e f now =
        ap₂ (λ (m : Py Step) (rest : MachineState → Py Step). m >>= λ step. and_then step rest)
          (apply_named-escrow x.name x.arg s e f now)
          (fun_ext (λ next. apply_effects-escrow es next e f now))
