-- ===== src/Runtime/Evm/Control/Tables.antt =====
-- The arms of crates/covenant-evm-runtime/src/evm.rs, table by table: none moves the `pc` itself, and
-- each that is not a push falls through, steps over one byte, or jumps to a destination of the set.
use covenant_language.Base.{
  ℕ, ◌+◌, ◌≡◌, refl, Bool, true, false, Bool-cases, inl, inr, List, All, leb, length, if◌then◌else◌,
}
use covenant_language.Runtime.U256.{U256, zero_word, one_word}
use covenant_language.Runtime.Evm.{
  Reason, CallEnv, Machine, Op, Next, pure, ◌>>=◌, gets, push, expand, read_memory,
}
use covenant_language.Runtime.Evm.Arms.{Arm, binary, unary, arithmetic_arms, transfer}
use covenant_language.Runtime.Evm.Step.{
  environment_arms, memory_arms, flow_arms, call_arms, sstore_arm, store_slot, run_precompile,
  call_memory, precompile_call, transfer_call,
}
use covenant_language.Runtime.Evm.Jumpdests.{is_push}
use covenant_language.Runtime.Evm.Keeps.{Keeps, bind-Keeps, pure-Keeps, gets-Keeps, lands_transfer}
use covenant_language.Runtime.Evm.Step.{codecopy_arm, mstore_arm}
use covenant_language.Runtime.Evm.Control.{
  SamePc, pc_chain, pc_pop, pc_expand, pc_write, pc_returned, pc_usize, pc_read, IsOrdinary, Goes,
  IsOrderly, before, falls, halts, either, pushes, pushes_usual, pushes_one, jumps, sliced,
}

module _ (keccak : List ℕ → List ℕ) (env : CallEnv) (code : List ℕ) where
  -- An entry of a table: no push, and orderly.
  abbrev pub IsEntry : ℕ × Arm → Type 0
  IsEntry e = (is_push e.0 ≡ false) × IsOrderly keccak env code e.1

  usual : (f : U256 → U256 → U256) → IsOrderly keccak env code (binary f)
  usual = pushes_usual keccak env code

  one : (f : U256 → U256) → IsOrderly keccak env code (unary f)
  one = pushes_one keccak env code

  out : (v : U256) → IsOrderly keccak env code (push v)
  out = pushes keccak env code

  bind :
      {A : Type 0} {op : Op A} {next : A → Arm}
      → Keeps SamePc op
      → ((a : A) → IsOrderly keccak env code (next a))
      → IsOrderly keccak env code (op >>= next)
  bind = before keccak env code

  get : {A : Type 0} (f : Machine → A) → Keeps SamePc (gets f)
  get f = gets-Keeps SamePc pc_chain f

  slices :
      {next : List ℕ → Arm} (offset len : ℕ)
      → ((bs : List ℕ) → IsOrderly keccak env code (next bs))
      → IsOrderly keccak env code (expand offset len >>= λ _. read_memory offset len >>= next)
  slices = sliced keccak env code

  branch :
      (b : Bool) {x y : Arm}
      → IsOrderly keccak env code x
      → IsOrderly keccak env code y
      → IsOrderly keccak env code (if b then x else y)
  branch = either keccak env code

  fall : IsOrderly keccak env code (pure Next.fall)
  fall = falls keccak env code

  pub arithmetic_entries : All IsEntry arithmetic_arms
  arithmetic_entries = (
    (refl, usual _),
    (
      (refl, usual _),
      (
        (refl, usual _),
        (
          (refl, usual _),
          (
            (refl, usual _),
            (
              (refl, usual _),
              (
                (refl, usual _),
                (
                  (refl, usual _),
                  (
                    (refl, one _),
                    (
                      (refl, usual _),
                      (
                        (refl, usual _),
                        (
                          (refl, usual _),
                          ((refl, one _), ((refl, usual _), ((refl, usual _), tt))),
                        ),
                      ),
                    ),
                  ),
                ),
              ),
            ),
          ),
        ),
      ),
    ),
  )

  codecopy_orderly : IsOrderly keccak env code (codecopy_arm keccak env code)
  codecopy_orderly = bind pc_usize (λ dest. bind pc_usize (λ offset.
      bind pc_usize (λ len. bind (pc_expand dest len) (λ u. bind (pc_write dest _) (λ v. fall)))))

  pub environment_entries : All IsEntry (environment_arms keccak env code)
  environment_entries = (
    (refl, out _),
    (
      (refl, out _),
      (
        (refl, out _),
        (
          (refl, bind pc_usize (λ off. out _)),
          (
            (refl, out _),
            (
              (refl, codecopy_orderly),
              (
                (refl, bind pc_pop (λ w. bind (get _) (λ host. out _))),
                ((refl, out _), ((refl, out _), ((refl, out _), tt))),
              ),
            ),
          ),
        ),
      ),
    ),
  )

  mstore_orderly : IsOrderly keccak env code (mstore_arm keccak env code)
  mstore_orderly = bind pc_usize (λ offset.
      bind pc_pop (λ value. bind (pc_expand offset 32) (λ u. bind (pc_write offset _) (λ v. fall))))

  sstore_orderly : IsOrderly keccak env code (sstore_arm keccak env code)
  unfolding sstore_arm store_slot
  sstore_orderly =
      branch env.is_static (halts keccak env code _)
        (bind pc_pop (λ key. bind pc_pop (λ val. record { goes = λ m. (tt, refl) })))

  pub memory_entries : All IsEntry (memory_arms keccak env code)
  memory_entries = (
    (refl, bind pc_usize (λ offset. bind pc_usize (λ len. slices offset len (λ bs. out _)))),
    (
      (refl, bind pc_pop (λ w. fall)),
      (
        (refl, bind pc_usize (λ offset. slices offset 32 (λ bs. out _))),
        (
          (refl, mstore_orderly),
          (
            (refl, bind pc_pop (λ w. bind (get _) (λ host. out _))),
            ((refl, sstore_orderly), ((refl, out _), ((refl, bind (get _) (λ n. out _)), tt))),
          ),
        ),
      ),
    ),
  )

  pub flow_entries : All IsEntry (flow_arms keccak env code)
  flow_entries = (
    (refl, halts keccak env code _),
    (
      (refl, bind pc_usize (λ d. jumps keccak env code Reason.invalid_jump d)),
      (
        (
          refl,
          bind pc_usize (λ d.
              bind pc_pop (λ c. branch _ (jumps keccak env code Reason.invalid_jumpi d) fall)),
        ),
        (
          (refl, fall),
          (
            (
              refl,
              bind pc_usize (λ offset.
                  bind pc_usize (λ len. slices offset len (λ bs. halts keccak env code _))),
            ),
            (
              (
                refl,
                bind pc_usize (λ offset.
                    bind pc_usize (λ len. slices offset len (λ bs. halts keccak env code _))),
              ),
              ((refl, halts keccak env code _), tt),
            ),
          ),
        ),
      ),
    ),
  )

  pc_call_memory : Keeps SamePc (call_memory keccak env code)
  pc_call_memory = bind-Keeps SamePc pc_chain pc_usize (λ args_off.
      bind-Keeps SamePc pc_chain pc_usize (λ args_len.
        bind-Keeps SamePc pc_chain pc_usize (λ ret_off.
          bind-Keeps SamePc pc_chain pc_usize (λ ret_len.
            bind-Keeps SamePc pc_chain (pc_expand args_off args_len) (λ u.
              bind-Keeps SamePc pc_chain (pc_expand ret_off ret_len) (λ v.
                bind-Keeps SamePc pc_chain (pc_read args_off args_len)
                  (λ input. pure-Keeps SamePc pc_chain _)))))))

  pc_precompile : (a : ℕ) (bs : List ℕ) → Keeps SamePc (run_precompile keccak env code a bs)
  unfolding run_precompile SamePc
  pc_precompile a bs = record { lands = λ m. refl }

  precompile_orderly :
      (a : ℕ) (bs : List ℕ) (off len : ℕ)
      → IsOrderly keccak env code (precompile_call keccak env code a bs off len)
  precompile_orderly a bs off len =
      bind (pc_precompile a bs)
        (λ o. bind (pc_write off _) (λ u. bind (pc_returned _) (λ v. out _)))

  pc_transfer : (a v : U256) → Keeps SamePc (transfer env a v)
  unfolding SamePc
  pc_transfer a v = record { lands = λ m. lands_transfer (SamePc m) env m a v refl (λ b. refl) }

  -- A transfer that fails steps over CALL itself.
  skip :
      (m : Machine)
      → Goes keccak env code
          (IsOrdinary keccak env code m.pc)
          m.pc
          ((push zero_word >>= λ _. pure (Next.goto (m.pc + 1))) m)
  unfolding push pure ◌>>=◌
  skip m = elim (Bool-cases (leb 1024 (length m.stack))) [
    | inl e ↦ rw (e, Goes) tt
    | inr e ↦ rw (e, Goes) (inl refl, refl)
  ]

  moved_orderly :
      (moved : Bool)
      → IsOrderly keccak env code (
          gets (λ m. m.pc) >>= λ pc.
          if moved then push one_word else (push zero_word >>= λ _. pure (Next.goto (pc + 1))))
  unfolding gets ◌>>=◌
  moved_orderly true = record { goes = λ m. (out one_word).goes m }
  moved_orderly false = record { goes = λ m. skip m }

  transfer_orderly : (a v : U256) → IsOrderly keccak env code (transfer_call keccak env code a v)
  transfer_orderly a v =
      bind (pc_returned 0) (λ u. bind (pc_transfer a v) (λ moved. moved_orderly moved))

  pub call_entries : All IsEntry (call_arms keccak env code)
  call_entries = (
    (
      refl,
      bind pc_pop (λ gas. bind pc_pop (λ a. bind pc_pop (λ v.
          bind pc_call_memory
            (λ c. branch _ (precompile_orderly _ c.0 c.1 c.2) (transfer_orderly a v))))),
    ),
    (
      (
        refl,
        bind pc_pop (λ gas. bind pc_pop (λ a. bind pc_call_memory (λ c.
            branch _ (precompile_orderly _ c.0 c.1 c.2) (bind (pc_returned 0) (λ u. out _))))),
      ),
      tt,
    ),
  )
