-- ===== src/Evm/Codegen/Bytecode/Pc.antt =====
-- Instructions of crates/covenant-evm-runtime/src/evm.rs that do not read the pc, and hence do the same at
-- any place of the code.
use covenant_language.Base.{
  ℕ, ◌+◌, ◌≡◌, refl, ap, ◌∙◌, Bool, true, false, not, ◌||◌, subst, ==_iff, List, [], ◌∷◌, ◌++◌,
  contains, leb, ltb, length, Bool-cases, Option-cases, inl, inr, if◌then◌else◌, All, ◌==◌,
}
use covenant_language.Runtime.Bytes.{slice}
use covenant_language.Runtime.U256.{U256, is_zero}
use covenant_language.Runtime.Evm.Jumpdests.{compute_jumpdests}
use covenant_language.Runtime.Evm.{
  Reason, CallResult, CallEnv, Machine, Flow, Op, Next, memory_expand, bind_flow, ◌>>=◌, pure, stop,
  gets, pop, push, pop_usize, expand, read_memory, write_memory,
}
use covenant_language.Runtime.Evm.Arms.{Arm, binary, unary, arithmetic_arms, dup_arm, swap_arm}
use covenant_language.Runtime.Evm.Step.{
  instruction, mload_arm, mstore_arm, sload_arm, sstore_arm, store_slot, jump_to, jump_arm,
  jumpi_arm, keccak_arm,
}

abbrev has_arm : ℕ → List (ℕ × Arm) → Bool
has_arm b [] = false
has_arm b ((k, _) ∷ t) = k == b || has_arm b t

-- The machine at another place.
abbrev pub at_pc : ℕ → Machine → Machine
at_pc p m = record m { pc = p }

abbrev pub move : {A : Type 0} → ℕ → Flow A → Flow A
move p (Flow.go a m) = Flow.go a (at_pc p m)
move p (Flow.halt r m) = Flow.halt r (at_pc p m)
move p Flow.panic = Flow.panic

pub record IsPcFree {A : Type 0} (op : Op A) : Type 0 where
  pub anywhere : (p : ℕ) (m : Machine) → op (at_pc p m) ≡ move p (op m)

bind_move :
    {A B : Type 0} (p : ℕ) (f : Flow A) (k : A → Op B)
    → ((a : A) → IsPcFree (k a))
    → bind_flow (move p f) k ≡ move p (bind_flow f k)
bind_move p (Flow.go a m) k h = (h a).anywhere p m
bind_move p (Flow.halt r m) k h = refl
bind_move p Flow.panic k h = refl

pub bind-IsPcFree :
    {A B : Type 0} {op : Op A} {k : A → Op B}
    → IsPcFree op
    → ((a : A) → IsPcFree (k a))
    → IsPcFree (op >>= k)
unfolding ◌>>=◌
bind-IsPcFree {op = op} {k = k} h g = record {
  anywhere = λ p m. ap (λ f. bind_flow f k) (h.anywhere p m) ∙ bind_move p (op m) k g;
}

pure-IsPcFree : {A : Type 0} (a : A) → IsPcFree (pure a)
unfolding pure
pure-IsPcFree a = record { anywhere = λ p m. refl }

stop-IsPcFree : {A : Type 0} (r : CallResult) → IsPcFree (stop {A = A} r)
unfolding stop
stop-IsPcFree r = record { anywhere = λ p m. refl }

if-IsPcFree :
    {A : Type 0} (b : Bool) {x y : Op A} → IsPcFree x → IsPcFree y → IsPcFree (if b then x else y)
if-IsPcFree true h g = h
if-IsPcFree false h g = g

-- `pop` of a given stack.
abbrev popped : List U256 → Machine → Flow U256
popped s m = elim s [
  | [] ↦ Flow.halt (CallResult.abort Reason.stack_underflow) m
  | v ∷ vs ↦ Flow.go v (record m { stack = vs })
]

popped_anywhere : (s : List U256) (p : ℕ) (m : Machine) → popped s (at_pc p m) ≡ move p (popped s m)
popped_anywhere [] p m = refl
popped_anywhere (v ∷ vs) p m = refl

pop-IsPcFree : IsPcFree pop
unfolding pop
pop-IsPcFree = record { anywhere = λ p m. popped_anywhere m.stack p m }

pub push-IsPcFree : (v : U256) → IsPcFree (push v)
unfolding push
push-IsPcFree v = record {
  anywhere = λ p m. elim (Bool-cases (leb 1024 (length m.stack))) [
    | inl e ↦ rw (e, move) refl
    | inr e ↦ rw (e, move) refl
  ];
}

dup-IsPcFree : (n : ℕ) → IsPcFree (dup_arm n)
unfolding dup_arm
dup-IsPcFree n = record {
  anywhere = λ p m. elim (Bool-cases (ltb (length m.stack) n)) [
    | inl e ↦ rw (e, move) refl
    | inr e ↦ rw (e, move) ((push-IsPcFree _).anywhere p m)
  ];
}

swap-IsPcFree : (n : ℕ) → IsPcFree (swap_arm n)
unfolding swap_arm
swap-IsPcFree n = record {
  anywhere = λ p m. elim (Bool-cases (ltb (length m.stack) (n + 1))) [
    | inl e ↦ rw (e, move) refl
    | inr e ↦ rw (e, move) refl
  ];
}

expand-IsPcFree : (offset len : ℕ) → IsPcFree (expand offset len)
unfolding expand
expand-IsPcFree offset len = record {
  anywhere = λ p m. elim (Option-cases (memory_expand m.memory offset len)) [
    | inl e ↦ rw (e, move) refl
    | inr (mem, e) ↦ rw (e, move) refl
  ];
}

read-IsPcFree : (offset len : ℕ) → IsPcFree (read_memory offset len)
unfolding read_memory
read-IsPcFree offset len = record {
  anywhere = λ p m. elim (Option-cases (slice m.memory offset len)) [
    | inl e ↦ rw (e, move) refl
    | inr (bs, e) ↦ rw (e, move) refl
  ];
}

write-IsPcFree : (offset : ℕ) (bs : List ℕ) → IsPcFree (write_memory offset bs)
unfolding write_memory
write-IsPcFree offset bs = record { anywhere = λ p m. refl }

binary-IsPcFree : (f : U256 → U256 → U256) → IsPcFree (binary f)
binary-IsPcFree f =
    bind-IsPcFree pop-IsPcFree (λ a. bind-IsPcFree pop-IsPcFree (λ b. push-IsPcFree (f a b)))

unary-IsPcFree : (f : U256 → U256) → IsPcFree (unary f)
unary-IsPcFree f = bind-IsPcFree pop-IsPcFree (λ a. push-IsPcFree (f a))

usize-IsPcFree : IsPcFree pop_usize
usize-IsPcFree = bind-IsPcFree pop-IsPcFree (λ w. pure-IsPcFree _)

module _ (keccak : List ℕ → List ℕ) (env : CallEnv) (code : List ℕ) where
  mload-IsPcFree : IsPcFree (mload_arm keccak env code)
  mload-IsPcFree = bind-IsPcFree usize-IsPcFree (λ o.
      bind-IsPcFree (expand-IsPcFree o 32)
        (λ u. bind-IsPcFree (read-IsPcFree o 32) (λ bs. push-IsPcFree _)))

  mstore-IsPcFree : IsPcFree (mstore_arm keccak env code)
  mstore-IsPcFree = bind-IsPcFree usize-IsPcFree (λ o. bind-IsPcFree pop-IsPcFree (λ w.
      bind-IsPcFree (expand-IsPcFree o 32)
        (λ u. bind-IsPcFree (write-IsPcFree o _) (λ t. pure-IsPcFree _))))

  keccak-IsPcFree : IsPcFree (keccak_arm keccak env code)
  keccak-IsPcFree = bind-IsPcFree usize-IsPcFree (λ o. bind-IsPcFree usize-IsPcFree (λ n.
      bind-IsPcFree (expand-IsPcFree o n)
        (λ u. bind-IsPcFree (read-IsPcFree o n) (λ bs. push-IsPcFree _))))

  sload-IsPcFree : IsPcFree (sload_arm keccak env code)
  unfolding gets
  sload-IsPcFree =
      bind-IsPcFree pop-IsPcFree
        (λ k. bind-IsPcFree (record { anywhere = λ p m. refl }) (λ host. push-IsPcFree _))

  sstore-IsPcFree : IsPcFree (sstore_arm keccak env code)
  unfolding sstore_arm store_slot
  sstore-IsPcFree = if-IsPcFree env.is_static (stop-IsPcFree _) (
      bind-IsPcFree pop-IsPcFree
        (λ k. bind-IsPcFree pop-IsPcFree (λ w. record { anywhere = λ p m. refl })))

  jump_to-IsPcFree : (reason : ℕ → Reason) (d : ℕ) → IsPcFree (jump_to keccak env code reason d)
  jump_to-IsPcFree reason d =
      if-IsPcFree (contains d (compute_jumpdests code)) (pure-IsPcFree _) (stop-IsPcFree _)

  jump-IsPcFree : IsPcFree (jump_arm keccak env code)
  jump-IsPcFree = bind-IsPcFree usize-IsPcFree (λ d. jump_to-IsPcFree Reason.invalid_jump d)

  jumpi-IsPcFree : IsPcFree (jumpi_arm keccak env code)
  jumpi-IsPcFree = bind-IsPcFree usize-IsPcFree (λ d. bind-IsPcFree pop-IsPcFree (λ c.
      if-IsPcFree (not (is_zero c)) (jump_to-IsPcFree Reason.invalid_jumpi d) (pure-IsPcFree _)))

  -- The opcodes of plain computation, of memory and storage, and of jumps.
  abbrev pub local_arms : List (ℕ × Arm)
  local_arms =
      arithmetic_arms
      ++ ((0x20, keccak_arm keccak env code)
          ∷ (0x50, (do _ ← pop; pure Next.fall))
          ∷ (0x51, mload_arm keccak env code)
          ∷ (0x52, mstore_arm keccak env code)
          ∷ (0x54, sload_arm keccak env code)
          ∷ (0x55, sstore_arm keccak env code)
          ∷ (0x56, jump_arm keccak env code)
          ∷ (0x57, jumpi_arm keccak env code)
          ∷ (0x80, dup_arm 1)
          ∷ (0x90, swap_arm 1)
          ∷ [])

  abbrev pub is_local : ℕ → Bool
  is_local b = has_arm b local_arms

  local-All : All (λ (e : ℕ × Arm). IsPcFree (instruction keccak env code e.0)) local_arms
  unfolding instruction
  local-All = (
    binary-IsPcFree _,
    (
      binary-IsPcFree _,
      (
        binary-IsPcFree _,
        (
          binary-IsPcFree _,
          (
            binary-IsPcFree _,
            (
              binary-IsPcFree _,
              (
                binary-IsPcFree _,
                (
                  binary-IsPcFree _,
                  (
                    unary-IsPcFree _,
                    (
                      binary-IsPcFree _,
                      (
                        binary-IsPcFree _,
                        (
                          binary-IsPcFree _,
                          (
                            unary-IsPcFree _,
                            (
                              binary-IsPcFree _,
                              (
                                binary-IsPcFree _,
                                (
                                  keccak-IsPcFree,
                                  (
                                    bind-IsPcFree pop-IsPcFree (λ w. pure-IsPcFree _),
                                    (
                                      mload-IsPcFree,
                                      (
                                        mstore-IsPcFree,
                                        (
                                          sload-IsPcFree,
                                          (
                                            sstore-IsPcFree,
                                            (
                                              jump-IsPcFree,
                                              (
                                                jumpi-IsPcFree,
                                                (dup-IsPcFree 1, (swap-IsPcFree 1, tt)),
                                              ),
                                            ),
                                          ),
                                        ),
                                      ),
                                    ),
                                  ),
                                ),
                              ),
                            ),
                          ),
                        ),
                      ),
                    ),
                  ),
                ),
              ),
            ),
          ),
        ),
      ),
    ),
  )

  found :
      (P : ℕ → Type 0) (b : ℕ) (t : List (ℕ × Arm))
      → All (λ (e : ℕ × Arm). P e.0) t
      → has_arm b t ≡ true
      → P b
  found P b [] h e = cc
  found P b ((k, arm) ∷ t) h e = elim (Bool-cases (k == b)) [
    | inl same ↦ subst P ((==_iff k b).0 same) h.0
    | inr other ↦ found P b t h.1 (rw other at e)
  ]

  -- An instruction with one of these opcodes does the same at any place of the code.
  pub local-IsPcFree : (b : ℕ) → is_local b ≡ true → IsPcFree (instruction keccak env code b)
  local-IsPcFree b e =
      found (λ c. IsPcFree (instruction keccak env code c)) b local_arms local-All e
