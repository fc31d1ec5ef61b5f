-- ===== src/Runtime/Evm/Host.antt =====
-- What a call of crates/covenant-evm-runtime/src/evm.rs may change of the host.
use mathlib.Core.Bool.{true≢false}
use covenant_language.Base.{ℕ, ◌≡◌, refl, sym, ◌∙◌, ap, true, false, Option, some, none, List}
use covenant_language.Runtime.Bytes.{bytes_eq}
use covenant_language.Runtime.U256.{U256}
use covenant_language.Runtime.Address.{Address}
use covenant_language.Runtime.Precompiles.{MockPrecompileState}
use covenant_language.Runtime.Evm.{
  CallResult, LogEvent, CallEnv, AddressMap, HostState, Machine, Flow, Slots, find_slot, sload,
  sstore, pop, expand, write_memory, set_returned, slots_of,
}
use covenant_language.Runtime.Evm.Step.{
  sstore_arm, log_arm, store_slot, push_log, run_precompile, run, start, step_limit, outcome,
  execute,
}
use covenant_language.Runtime.Evm.Keeps.{
  Lands, Keeps, IsChain, lands_pop, lands_push, lands_dup, lands_swap, lands_expand, lands_transfer,
}
use covenant_language.Runtime.Evm.Keeps.Guarded.{sstore_arm-Keeps, log_arm-Keeps}
use covenant_language.Runtime.Evm.Keeps.Arms.{IsKept}
use covenant_language.Runtime.Evm.Keeps.Run.{run_lands}

module _ (keccak : List ℕ → List ℕ) (env : CallEnv) (code : List ℕ) {V : Type 0}
    (view : HostState → V) where
  abbrev SameView : Machine → Machine → Type 0
  SameView m n = view n.host ≡ view m.host

  view_chain : IsChain SameView
  view_chain = record { here = λ m. refl; onward = λ l m n h g. g ∙ h }

  -- A view that the transfers, and where they run the stores and the events, leave alone.
  pub record IsUnseen : Type 0 where
    pub of_store :
        env.is_static ≡ false
        → (h : HostState) (key val : U256) → view (sstore h env.address key val) ≡ view h
    pub of_log :
        env.is_static ≡ false
        → (h : HostState) (ls : List LogEvent) → view (record h { logs = ls }) ≡ view h
    pub of_transfer :
        (h : HostState) (b : AddressMap U256) → view (record h { balances = b }) ≡ view h

  module _ (u : IsUnseen) where
    view_pop : Keeps SameView pop
    view_pop = record { lands = λ m. lands_pop (SameView m) m refl (λ v vs e. refl) }

    view_sstore : Keeps SameView (sstore_arm keccak env code)
    unfolding store_slot
    view_sstore =
        sstore_arm-Keeps keccak env code SameView view_chain view_pop
          (λ s key val. record { lands = λ m. u.of_store s m.host key val })

    view_expand : (offset len : ℕ) → Keeps SameView (expand offset len)
    view_expand offset len = record {
      lands = λ m. lands_expand (SameView m) m offset len (λ mem e. refl);
    }

    view_log : (n : ℕ) → Keeps SameView (log_arm keccak env code n)
    unfolding push_log
    view_log =
        log_arm-Keeps keccak env code SameView view_chain view_pop view_expand
          (λ s ts bs. record { lands = λ m. u.of_log s m.host _ })

    view_kept : IsKept keccak env code SameView
    unfolding write_memory set_returned run_precompile
    view_kept = record {
      chain = view_chain;
      on_pop = view_pop;
      on_push = λ v. record { lands = λ m. lands_push (SameView m) m v refl (λ e. refl) };
      on_dup = λ n. record { lands = λ m. lands_dup (SameView m) m n refl (λ v e. refl) };
      on_swap = λ n. record { lands = λ m. lands_swap (SameView m) m n refl refl };
      on_expand = view_expand;
      on_write = λ offset bs. record { lands = λ m. refl };
      on_returned = λ n. record { lands = λ m. refl };
      on_sstore = view_sstore;
      on_log = view_log;
      on_transfer = λ a v. record {
        lands = λ m. lands_transfer (SameView m) env m a v refl (λ b. u.of_transfer m.host b);
      };
      on_precompile = λ a bs. record { lands = λ m. refl };
      on_pc = λ next. record { lands = λ m. refl };
    }

  view-outcome :
      (m : Machine) (f : Flow Unit) (r : CallResult) (h : HostState) (p : MockPrecompileState)
      → Lands (SameView m) f
      → outcome keccak env code f ≡ some (r, h, p)
      → view h ≡ view m.host
  view-outcome m (Flow.go a n) r h p l e = cc
  view-outcome m (Flow.halt q n) r h p l e =
      let host_of : Option (CallResult × HostState × MockPrecompileState) → HostState =
        λ o. elim o [ none ↦ n.host | some x ↦ x.1 ] in
      ap view (sym (ap host_of e)) ∙ l
  view-outcome m Flow.panic r h p l e = cc

  pub execute-view :
      IsUnseen
      → (h0 : HostState) (p0 : MockPrecompileState) (r : CallResult) (h : HostState)
        (p : MockPrecompileState)
      → execute keccak code env h0 p0 ≡ some (r, h, p)
      → view h ≡ view h0
  unfolding execute
  execute-view u h0 p0 r h p e =
      let m = start keccak env code h0 p0 in
      let l = run_lands keccak env code SameView (view_kept u) step_limit m in
      view-outcome m (run keccak env code step_limit m) r h p l e

-- A call in a static context that does not panic, however it ends, leaves the storage, the codes and
-- the events.
pub execute-static :
    (keccak : List ℕ → List ℕ) (code : List ℕ) (env : CallEnv) (h0 : HostState)
    (p0 : MockPrecompileState) (r : CallResult) (h : HostState) (p : MockPrecompileState)
    → env.is_static ≡ true
    → execute keccak code env h0 p0 ≡ some (r, h, p)
    → (h.storage ≡ h0.storage) × (h.code ≡ h0.code) × (h.logs ≡ h0.logs)
execute-static keccak code env h0 p0 r h p s e =
    let Kept : Type 0 = AddressMap Slots × AddressMap (List ℕ) × List LogEvent in
    let kept =
      execute-view keccak env code {V = Kept} (λ h. (h.storage, h.code, h.logs))
        record {
          of_store = λ f. elim (true≢false (sym s ∙ f)) [ ];
          of_log = λ f. elim (true≢false (sym s ∙ f)) [ ];
          of_transfer = λ h b. refl;
        }
        h0 p0 r h p e in
    (ap (λ (v : Kept). v.0) kept, ap (λ (v : Kept). v.1) kept, ap (λ (v : Kept). v.2) kept)

-- A call that does not panic, however it ends, leaves every slot of each address but the called one,
-- and every code, as they were.
pub execute-sload :
    (keccak : List ℕ → List ℕ) (code : List ℕ) (env : CallEnv) (h0 : HostState)
    (p0 : MockPrecompileState) (r : CallResult) (h : HostState) (p : MockPrecompileState)
    (other : Address) (key : U256)
    → bytes_eq env.address other ≡ false
    → execute keccak code env h0 p0 ≡ some (r, h, p)
    → (sload h other key ≡ sload h0 other key) × (h.code ≡ h0.code)
unfolding sload sstore
execute-sload keccak code env h0 p0 r h p other key differs e =
    let Kept : Type 0 = Slots × AddressMap (List ℕ) in
    let kept =
      execute-view keccak env code {V = Kept} (λ h. (slots_of h other, h.code))
        record {
          of_store = λ f h k v. rw differs refl;
          of_log = λ f h ls. refl;
          of_transfer = λ h b. refl;
        }
        h0 p0 r h p e in
    (ap (λ (v : Kept). find_slot key v.0) kept, ap (λ (v : Kept). v.1) kept)
