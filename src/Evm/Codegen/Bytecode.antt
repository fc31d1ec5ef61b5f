-- ===== src/Evm/Codegen/Bytecode.antt =====
-- The bytes that crates/covenant-evm-backend/src/asm.rs lays out, on the loop of
-- crates/covenant-evm-runtime/src/evm.rs: a round of the loop at the place of an operation does what the
-- operation does.
pub mod Pc
pub mod Runs
pub mod Plain
pub mod Places
use covenant_language.Base.{
  ℕ, zero, suc, ◌+◌, ◌-◌, ◌/◌, ◌%◌, ◌^◌, ◌≤◌, ◌<◌, ◌≡◌, refl, ap, sym, ◌∙◌, Bool, true, false, ◌&&◌,
  ◌||◌, Option, none, some, String, List, [], ◌∷◌, ◌++◌, ◌==◌, arith, length, drop, get_or, lookup,
  leb, ltb, All, Option-cases, Bool-cases, &&-split, inl, inr,
}
use covenant_language.Runtime.Bytes.{window, take, drop-append}
use covenant_language.Runtime.U256.{U256, zero_word, from_u64}
use covenant_language.Runtime.U256.Bits.{from_be_bytes, from_be}
use covenant_language.Runtime.Evm.{
  CallEnv, Machine, Flow, Op, Next, bind_flow, ◌>>=◌, pure, gets, push,
}
use covenant_language.Runtime.Evm.Arms.{Arm, push_arm, immediate}
use covenant_language.Runtime.Evm.Jumpdests.{is_push}
use covenant_language.Runtime.Evm.Step.{instruction, arms, set_pc, step}
use covenant_language.Evm.Asm.{AsmOp, op_len, Labels, find_label}
use covenant_language.Evm.Asm.Image.{
  push_image, label_image, image, image_all, total_len, length-image_all, image_all-append,
}
use covenant_language.Evm.Codegen.Exec.{pushed_word, label_place, op_arm}

-- An operation whose bytes the loop reads as one instruction: not a PUSH without its bytes, and no
-- literal of more than 32 bytes.
abbrev pub IsWhole : AsmOp → Type 0
IsWhole (AsmOp.op b) = is_push b ≡ false
IsWhole (AsmOp.push_bytes b) = length b ≤ 32
IsWhole _ = Unit {0}

-- No key of a table is in a range.
abbrev outside {ℓ} : {A : Type ℓ} → ℕ → ℕ → List (ℕ × A) → Bool
outside lo hi [] = true
outside lo hi ((k, _) ∷ t) = (ltb k lo || ltb hi k) && outside lo hi t

lookup-outside {ℓ} :
    {A : Type ℓ} (lo hi op : ℕ) (t : List (ℕ × A))
    → outside lo hi t ≡ true
    → lo ≤ op
    → op ≤ hi
    → lookup op t ≡ none
lookup-outside lo hi op [] e l h = refl
lookup-outside lo hi op ((k, v) ∷ t) e l h =
    let (here, there) = &&-split (ltb k lo || ltb hi k) (outside lo hi t) e in
    let other : (k == op) ≡ false = ground (arith, here, l, h) in
    rw other (lookup-outside lo hi op t there l h)

pub get_or-drop : (bs : List ℕ) (n d : ℕ) → get_or bs n d ≡ get_or (drop n bs) 0 d
get_or-drop bs zero d = refl
get_or-drop [] (suc n) d = refl
get_or-drop (b ∷ bs) (suc n) d = get_or-drop bs n d

drop_nothing : (n : ℕ) → drop {A = ℕ} n [] ≡ []
drop_nothing zero = refl
drop_nothing (suc n) = refl

drop_next : (bs : List ℕ) (n : ℕ) → drop (n + 1) bs ≡ drop 1 (drop n bs)
drop_next bs zero = refl
drop_next [] (suc n) = drop_nothing (suc n + 1)
drop_next (b ∷ bs) (suc n) =
    let e : suc n + 1 ≡ suc (n + 1) = omega arith in ap (λ k. drop k (b ∷ bs)) e ∙ drop_next bs n

take_all : (n : ℕ) (xs ys : List ℕ) → length xs ≡ n → take n (xs ++ ys) ≡ xs
take_all zero [] ys h = refl
take_all zero (x ∷ xs) ys h = ground (arith, h)
take_all (suc n) [] ys h = ground (arith, h)
take_all (suc n) (x ∷ xs) ys h = ap (λ bs. x ∷ bs) (take_all n xs ys (omega (arith, h)))

-- The bytes from an operation on.
pub drop_at :
    (labels : Labels) (pre rest : List AsmOp)
    → drop (total_len pre) (image_all labels (pre ++ rest)) ≡ image_all labels rest
drop_at labels pre rest = rw (image_all-append labels pre rest) (
    drop-append (total_len pre) (image_all labels pre) (image_all labels rest)
      (length-image_all labels pre))

-- Control goes on behind `n` bytes, or to a place.
abbrev pub placed : ℕ → Next → Op Unit
placed n Next.fall m = Flow.go tt (record m { pc = m.pc + n })
placed n (Next.goto d) m = Flow.go tt (record m { pc = d })

-- Two bytes of a place, read back.
place_word : (n : ℕ) → n < 2 ^ 16 → pushed_word (n / 2 ^ 8 % 256 ∷ n % 256 ∷ []) ≡ from_u64 n
unfolding from_be_bytes from_u64
place_word n h =
    let low : from_be (window 30 [] ++ n / 2 ^ 8 % 256 ∷ n % 256 ∷ []) 24 ≡ n = omega (arith, h) in
    ap from_u64 low

module _ (keccak : List ℕ → List ℕ) (env : CallEnv) (labels : Labels) where
  -- A label that is pushed has a place of two bytes.
  abbrev pub IsPlaced : AsmOp → Type 0
  IsPlaced (AsmOp.push_label name) = label_place (find_label name labels) < 2 ^ 16
  IsPlaced _ = Unit {0}

  push_instruction :
      (code : List ℕ) (k : ℕ)
      → k < 32
      → instruction keccak env code (0x60 + k) ≡ push_arm code (0x60 + k - 0x60 + 1)
  unfolding instruction
  push_instruction code k h =
      let gone : lookup (0x60 + k) (arms keccak env code) ≡ none =
        lookup-outside 0x60 0x9f (0x60 + k) (arms keccak env code) refl (omega arith)
          (omega (arith, h)) in
      let pushes : is_push (0x60 + k) ≡ true = ground (arith, h) in rw (gone, pushes) refl

  -- A PUSH whose immediate stands behind the pc.
  push_arm_lem :
      (code : List ℕ) (n : ℕ) (bs rest : List ℕ) (m : Machine)
      → length bs ≡ n
      → drop (m.pc + 1) code ≡ bs ++ rest
      → bind_flow (push_arm code n m) (set_pc keccak env code)
        ≡ bind_flow (push (pushed_word bs) m) (placed (1 + n))
  unfolding push ◌>>=◌ pure gets
  push_arm_lem code n bs rest m e at =
      let word : immediate code m.pc n ≡ pushed_word bs =
        ap (λ ds. pushed_word (take n ds)) at ∙ ap pushed_word (take_all n bs rest e) in
      elim (Bool-cases (leb 1024 (length m.stack))) [
        | inl full ↦ rw (word, full) refl
        | inr room ↦ rw (word, room) refl
      ]

  step_head :
      (code : List ℕ) (b : ℕ) (rest : List ℕ) (m : Machine)
      → drop m.pc code ≡ b ∷ rest
      → step keccak env code m
        ≡ bind_flow (instruction keccak env code b m) (set_pc keccak env code)
  unfolding step
  step_head code b rest m at =
      ap (λ c. bind_flow (instruction keccak env code c m) (set_pc keccak env code))
        (get_or-drop code m.pc 0 ∙ ap (λ bs. get_or bs 0 0) at)

  one_byte :
      (code : List ℕ) (f : Flow Next)
      → bind_flow f (set_pc keccak env code) ≡ bind_flow f (placed 1)
  one_byte code (Flow.go Next.fall m) = refl
  one_byte code (Flow.go (Next.goto d) m) = refl
  one_byte code (Flow.halt r m) = refl
  one_byte code Flow.panic = refl

  -- A PUSH of `b`, not empty.
  step-push :
      (code : List ℕ) (k : ℕ) (bs rest : List ℕ) (m : Machine)
      → k < 32
      → length bs ≡ k + 1
      → drop m.pc code ≡ (0x60 + k) ∷ (bs ++ rest)
      → step keccak env code m ≡ bind_flow (push (pushed_word bs) m) (placed (1 + (k + 1)))
  step-push code k bs rest m lt e at =
      let n : 0x60 + k - 0x60 + 1 ≡ k + 1 = omega arith in
      step_head code (0x60 + k) (bs ++ rest) m at
      ∙ ap (λ arm. bind_flow (arm m) (set_pc keccak env code)) (push_instruction code k lt)
      ∙ ap (λ j. bind_flow (push_arm code j m) (set_pc keccak env code)) n
      ∙ push_arm_lem code (k + 1) bs rest m e (drop_next code m.pc ∙ ap (drop 1) at)

  step_label :
      (code : List ℕ) (o : Option ℕ) (rest : List ℕ) (m : Machine)
      → drop m.pc code ≡ label_image o ++ rest
      → label_place o < 2 ^ 16
      → step keccak env code m ≡ bind_flow (push (from_u64 (label_place o)) m) (placed 3)
  unfolding from_be_bytes from_u64
  step_label code none rest m at small = step-push code 1 (0 ∷ 0 ∷ []) rest m (omega arith) refl at
  step_label code (some n) rest m at small =
      step-push code 1 (n / 2 ^ 8 % 256 ∷ n % 256 ∷ []) rest m (omega arith) refl at
      ∙ ap (λ w. bind_flow (push w m) (placed 3)) (place_word n small)

  -- A round of the loop where the bytes of an operation stand does what the operation does and moves
  -- the pc past its bytes.
  pub step-image :
      (code : List ℕ) (o : AsmOp) (rest : List ℕ) (m : Machine)
      → drop m.pc code ≡ image labels o ++ rest
      → IsWhole o
      → IsPlaced o
      → step keccak env code m ≡ bind_flow (op_arm keccak env code labels o m) (placed (op_len o))
  unfolding image op_len instruction from_be_bytes pure
  step-image code (AsmOp.op b) rest m at whole small = step_head code b rest m at ∙ one_byte code _
  step-image code (AsmOp.push_bytes []) rest m at whole small =
      step_head code 0x5f rest m at ∙ one_byte code _
  step-image code (AsmOp.push_bytes (x ∷ b)) rest m at whole small =
      let e : length (x ∷ b) ≡ length b + 1 = omega arith in
      step-push code (length b) (x ∷ b) rest m (omega (arith, whole)) e at
      ∙ ap (λ k. bind_flow (push (pushed_word (x ∷ b)) m) (placed (1 + k))) (sym e)
  step-image code AsmOp.push0 rest m at whole small =
      step_head code 0x5f rest m at ∙ one_byte code _
  step-image code (AsmOp.label_def name) rest m at whole small =
      step_head code 0x5b rest m at ∙ one_byte code (Flow.go Next.fall m)
  step-image code (AsmOp.push_label name) rest m at whole small =
      step_label code (find_label name labels) rest m at small
