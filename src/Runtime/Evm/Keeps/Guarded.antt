-- ===== src/Runtime/Evm/Keeps/Guarded.antt =====
-- The arms of crates/covenant-evm-runtime/src/evm.rs that ask whether the context is static.
use covenant_language.Base.{ℕ, ◌≡◌, Bool-cases, false, inl, inr, List}
use covenant_language.Runtime.U256.{U256}
use covenant_language.Runtime.Evm.{CallEnv, Machine, pop, expand}
use covenant_language.Runtime.Evm.Step.{sstore_arm, log_arm, store_slot, push_log}
use covenant_language.Runtime.Evm.Keeps.{
  Keeps, IsChain, bind-Keeps, stop-Keeps, read-Keeps, pop_usize-Keeps, pop_topics-Keeps,
}

module _ (keccak : List ℕ → List ℕ) (env : CallEnv) (code : List ℕ) (R : Machine → Machine → Type 0)
    (k : IsChain R) (popped : Keeps R pop) where
  pub sstore_arm-Keeps :
      (env.is_static ≡ false → (key val : U256) → Keeps R (store_slot keccak env code key val))
      → Keeps R (sstore_arm keccak env code)
  unfolding sstore_arm store_slot
  sstore_arm-Keeps stored = elim (Bool-cases env.is_static) [
    | inl s ↦ rw s (stop-Keeps R k _)
    | inr s ↦ rw s (bind-Keeps R k popped (λ key. bind-Keeps R k popped (λ val. stored s key val)))
  ]

  pub log_arm-Keeps :
      ((offset len : ℕ) → Keeps R (expand offset len))
      → (env.is_static ≡ false
          → (ts : List (List ℕ)) (bs : List ℕ) → Keeps R (push_log keccak env code ts bs))
      → (n : ℕ) → Keeps R (log_arm keccak env code n)
  unfolding log_arm push_log
  log_arm-Keeps expanded logged n = elim (Bool-cases env.is_static) [
    | inl s ↦ rw s (stop-Keeps R k _)
    | inr s ↦ rw s (
        bind-Keeps R k (pop_usize-Keeps R k popped) (λ offset.
          bind-Keeps R k (pop_usize-Keeps R k popped) (λ len.
            bind-Keeps R k (pop_topics-Keeps R k popped n) (λ ts.
              bind-Keeps R k (expanded offset len)
                (λ u. bind-Keeps R k (read-Keeps R k offset len) (λ bs. logged s ts bs))))))
  ]
