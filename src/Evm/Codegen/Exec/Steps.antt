-- ===== src/Evm/Codegen/Exec/Steps.antt =====
-- Single operations of the emitted code on the machine of crates/covenant-evm-runtime/src/evm.rs, at the
-- head of further code.
use covenant_language.Base.{
  ℕ, ◌^◌, ◌<◌, ◌≡◌, refl, true, false, some, String, List, ◌∷◌, arith, length, leb, contains, ltb,
}
use covenant_language.Runtime.U256.{U256, is_zero}
use covenant_language.Runtime.Evm.{CallEnv, Machine, Flow, Next, ◌>>=◌, pure, pop, push}
use covenant_language.Runtime.Evm.Arms.{binary, unary, dup_arm, swap_arm}
use covenant_language.Runtime.Evm.Jumpdests.{compute_jumpdests}
use covenant_language.Runtime.Evm.Step.{instruction}
use covenant_language.Evm.Asm.{AsmOp, Labels, find_label}
use covenant_language.Evm.Codegen.{Code}
use covenant_language.Evm.Codegen.Exec.{exec}
use covenant_language.Evm.Codegen.Exec.Operands.{st, after, usize-from_u64}

module _ (keccak : List ℕ → List ℕ) (env : CallEnv) (code : List ℕ) (labels : Labels) where
  pub after-binary :
      (b : ℕ) (g : U256 → U256 → U256)
      → instruction keccak env code b ≡ binary g
      → (a c : U256) (rest : Code) (s : List U256) (mem : List ℕ) (m : Machine) → length s < 1024
      → after keccak env code labels (AsmOp.op b ∷ rest) (a ∷ c ∷ s) mem m
        ≡ after keccak env code labels rest (g a c ∷ s) mem m
  unfolding exec ◌>>=◌ pop push
  after-binary b g e a c rest s mem m h =
      let room : leb 1024 (length s) ≡ false = ground (arith, h) in rw (e, room) refl

  pub after-unary :
      (b : ℕ) (g : U256 → U256)
      → instruction keccak env code b ≡ unary g
      → (a : U256) (rest : Code) (s : List U256) (mem : List ℕ) (m : Machine) → length s < 1024
      → after keccak env code labels (AsmOp.op b ∷ rest) (a ∷ s) mem m
        ≡ after keccak env code labels rest (g a ∷ s) mem m
  unfolding exec ◌>>=◌ pop push
  after-unary b g e a rest s mem m h =
      let room : leb 1024 (length s) ≡ false = ground (arith, h) in rw (e, room) refl

  pub after_dup :
      (a : U256) (rest : Code) (s : List U256) (mem : List ℕ) (m : Machine)
      → length s < 1023
      → after keccak env code labels (AsmOp.op 0x80 ∷ rest) (a ∷ s) mem m
        ≡ after keccak env code labels rest (a ∷ a ∷ s) mem m
  unfolding exec instruction dup_arm push
  after_dup a rest s mem m h =
      let room : leb 1024 (length (a ∷ s)) ≡ false = ground (arith, h) in
      let some_in : ltb (length (a ∷ s)) 1 ≡ false = ground arith in rw (some_in, room) refl

  pub after_swap :
      (a c : U256) (rest : Code) (s : List U256) (mem : List ℕ) (m : Machine)
      → after keccak env code labels (AsmOp.op 0x90 ∷ rest) (a ∷ c ∷ s) mem m
        ≡ after keccak env code labels rest (c ∷ a ∷ s) mem m
  unfolding exec instruction swap_arm
  after_swap a c rest s mem m =
      let two_in : ltb (length (a ∷ c ∷ s)) 2 ≡ false = ground arith in rw two_in refl

  -- A conditional jump to a label: not taken on zero, taken on any other word.
  pub after_jumpi_zero :
      (name : String) (w : U256) (rest : Code) (s : List U256) (mem : List ℕ) (m : Machine)
      → is_zero w ≡ true
      → length s < 1023
      → after keccak env code labels (AsmOp.push_label name ∷ AsmOp.op 0x57 ∷ rest) (w ∷ s) mem m
        ≡ after keccak env code labels rest s mem m
  unfolding exec instruction ◌>>=◌ pure pop push
  after_jumpi_zero name w rest s mem m z h =
      let room : leb 1024 (length (w ∷ s)) ≡ false = ground (arith, h) in rw (room, z) refl

  pub after_jumpi :
      (name : String) (d : ℕ) (w : U256) (rest : Code) (s : List U256) (mem : List ℕ) (m : Machine)
      → find_label name labels ≡ some d
      → d < 2 ^ 32
      → contains d (compute_jumpdests code) ≡ true
      → is_zero w ≡ false
      → length s < 1023
      → after keccak env code labels (AsmOp.push_label name ∷ AsmOp.op 0x57 ∷ rest) (w ∷ s) mem m
        ≡ Flow.go (Next.goto d) (st s mem m)
  unfolding exec instruction ◌>>=◌ pure pop push
  after_jumpi name d w rest s mem m found small there nz h =
      let room : leb 1024 (length (w ∷ s)) ≡ false = ground (arith, h) in
      rw (room, found, usize-from_u64 d small, nz, there) refl

  pub after_label :
      (name : String) (rest : Code) (s : List U256) (mem : List ℕ) (m : Machine)
      → after keccak env code labels (AsmOp.label_def name ∷ rest) s mem m
        ≡ after keccak env code labels rest s mem m
  unfolding exec
  after_label name rest s mem m = refl
