-- ===== src/Opt/Dce/Observe.antt =====
-- What a block does is unchanged by the elimination (crates/covenant-opt/src/dce.rs): the meaning of
-- the instructions is an abstract machine, with what the effect model claims of it as its laws.
pub mod Tests
use covenant_language.Base.{
  ◌≡◌, refl, true, false, Option, none, some, String, List, [], ◌∷◌, arith,
}
use covenant_language.Ir.Ident.{Value}
use covenant_language.Ir.Opcode.{Opcode}
use covenant_language.Ir.Function.{Instr}
use covenant_language.Opt.Effect.{Effect, effect_of}
use covenant_language.Opt.Effects.{Consts, trap_can_fire, trap_depends_only_on_operands}
use covenant_language.Opt.Dce.{Key, values_eq}

-- One execution of a block, in which each SSA value has one meaning. `exec op operands w` is the
-- state after the instruction, or `none` where the transaction aborts.
pub record Machine (consts : Consts) (W : Type 0) : Type 0 where
  pub exec : Opcode → List Value → W → Option W
  pub pure_steps :
      (op : Opcode) (vs : List Value) (w : W) → effect_of op ≡ Effect.pure → exec op vs w ≡ some w
  pub trap_keeps :
      (op : Opcode) (vs : List Value) (w w' : W)
      → effect_of op ≡ Effect.trap
      → exec op vs w ≡ some w'
      → w ≡ w'
  pub trap_fixed :
      (op : Opcode) (vs : List Value) (w w' : W)
      → trap_depends_only_on_operands op ≡ true
      → exec op vs w ≡ some w
      → exec op vs w' ≡ some w'
  pub trap_safe :
      (i : Instr) (w : W)
      → effect_of i.opcode ≡ Effect.trap
      → trap_can_fire i consts ≡ false
      → exec i.opcode i.operands w ≡ some w

-- The fingerprint tells the operand-determined traps apart.
abbrev pub Fingerprints : (Opcode → String) → Type 0
Fingerprints debug =
    (o p : Opcode)
    → trap_depends_only_on_operands o ≡ true
    → trap_depends_only_on_operands p ≡ true
    → debug o ≡ debug p
    → o ≡ p

pub values_eq-eq : (vs ws : List Value) → values_eq vs ws ≡ true → vs ≡ ws
values_eq-eq [] [] h = refl
values_eq-eq [] (w ∷ ws) h = cc
values_eq-eq (v ∷ vs) [] h = cc
values_eq-eq (v ∷ vs) (w ∷ ws) h = ground (arith, values_eq-eq vs ws)

module _ {W : Type 0} (debug : Opcode → String) (consts : Consts) (m : Machine consts W)
    (distinct : Fingerprints debug) (live : List Value) where
  abbrev after : Option W → (W → Option W) → Option W
  after none k = none
  after (some w) k = k w

  -- The instructions in turn, up to an abort.
  unfoldable pub run : List Instr → W → Option W
  run [] w = some w
  run (i ∷ is) w = after (m.exec i.opcode i.operands w) (run is)

  -- The keys name traps that were passed, operand-determined ones.
  data Taken : List Key → Type 0 where
    none_yet : Taken []
    taken :
        {ks : List Key} (op : Opcode) (vs : List Value) (w : W)
        → trap_depends_only_on_operands op ≡ true
        → m.exec op vs w ≡ some w
        → Taken ks
        → Taken ((debug op, vs) ∷ ks)
