-- ===== src/Runtime/Evm/Stack.antt =====
-- The bound of the stack in crates/covenant-evm-runtime/src/evm.rs.
use covenant_language.Base.{ℕ, zero, suc, ◌-◌, ◌≤◌, ◌≡◌, refl, ap, List, [], ◌∷◌, length, arith}
use covenant_language.Runtime.U256.{U256}
use covenant_language.Runtime.Evm.{CallEnv, Machine, pop, expand, write_memory, set_returned}
use covenant_language.Runtime.Evm.Arms.{put, swap}
use covenant_language.Runtime.Evm.Step.{sstore_arm, log_arm, store_slot, push_log, run_precompile}
use covenant_language.Runtime.Evm.Keeps.{
  Keeps, IsChain, lands_pop, lands_push, lands_dup, lands_swap, lands_expand, lands_transfer,
}
use covenant_language.Runtime.Evm.Keeps.Guarded.{sstore_arm-Keeps, log_arm-Keeps}
use covenant_language.Runtime.Evm.Keeps.Arms.{IsKept}

length-put : (xs : List U256) (i : ℕ) (v : U256) → length (put xs i v) ≡ length xs
length-put [] i v = refl
length-put (x ∷ xs) zero v = refl
length-put (x ∷ xs) (suc i) v = omega (arith, length-put xs i v)

length-swap : (n : ℕ) (xs : List U256) → length (swap n xs) ≡ length xs
length-swap n [] = refl
length-swap n (x ∷ xs) = omega (arith, length-put xs (n - 1) x)

-- The limit is kept.
unfoldable pub StackKept : Machine → Machine → Type 0
StackKept m n = length m.stack ≤ 1024 → length n.stack ≤ 1024

stack_chain : IsChain StackKept
unfolding StackKept
stack_chain = record { here = λ m h. h; onward = λ l m n h g b. g (h b) }

stack_pop : Keeps StackKept pop
unfolding StackKept
stack_pop = record {
  lands = λ m. lands_pop (StackKept m) m (λ h. h) (λ v vs e h. omega (arith, ap length e, h));
}

stack_expand : (offset len : ℕ) → Keeps StackKept (expand offset len)
unfolding StackKept
stack_expand offset len = record {
  lands = λ m. lands_expand (StackKept m) m offset len (λ mem e h. h);
}

module _ (keccak : List ℕ → List ℕ) (env : CallEnv) (code : List ℕ) where
  stack_sstore : Keeps StackKept (sstore_arm keccak env code)
  unfolding store_slot StackKept
  stack_sstore =
      sstore_arm-Keeps keccak env code StackKept stack_chain stack_pop
        (λ s key val. record { lands = λ m h. h })

  stack_log : (n : ℕ) → Keeps StackKept (log_arm keccak env code n)
  unfolding push_log StackKept
  stack_log =
      log_arm-Keeps keccak env code StackKept stack_chain stack_pop stack_expand
        (λ s ts bs. record { lands = λ m h. h })

  pub stack_kept : IsKept keccak env code StackKept
  unfolding write_memory set_returned run_precompile StackKept
  stack_kept = record {
    chain = stack_chain;
    on_pop = stack_pop;
    on_push = λ v. record {
      lands = λ m. lands_push (StackKept m) m v (λ h. h) (λ e h. ground (arith, e, h));
    };
    on_dup = λ n. record {
      lands = λ m. lands_dup (StackKept m) m n (λ h. h) (λ v e h. ground (arith, e, h));
    };
    on_swap = λ n. record {
      lands =
          λ m. lands_swap (StackKept m) m n (λ h. h) (λ h. omega (arith, length-swap n m.stack, h));
    };
    on_expand = stack_expand;
    on_write = λ offset bs. record { lands = λ m h. h };
    on_returned = λ n. record { lands = λ m h. h };
    on_sstore = stack_sstore;
    on_log = stack_log;
    on_transfer =
        λ a v. record { lands = λ m. lands_transfer (StackKept m) env m a v (λ h. h) (λ b h. h) };
    on_precompile = λ a bs. record { lands = λ m h. h };
    on_pc = λ next. record { lands = λ m h. h };
  }
