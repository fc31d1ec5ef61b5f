-- ===== src/Runtime/Precompiles/Tests.antt =====
-- Instances of the laws of crates/covenant-evm-runtime/src/precompiles.rs.
use covenant_language.Base.{ℕ, ◌≡◌, refl, arith, List, [], ◌∷◌, ◌++◌}
use covenant_language.Runtime.Bytes.{window, length-window}
use covenant_language.Runtime.U256.{U256, from_u64}
use covenant_language.Runtime.U256.Value.{IsWord, value}
use covenant_language.Runtime.U256.Bits.{to_be_bytes}
use covenant_language.Runtime.Precompiles.{
  MockPrecompileState, default_state, resolve_fhe, dispatch,
}
use covenant_language.Runtime.Precompiles.Homomorphic.{Operation, on_numbers, dispatch-reveal}

abbrev first_bytes : List ℕ → List ℕ
first_bytes bs = window 32 bs

-- Two handles, for five and for seven.
abbrev handle_five : List ℕ
handle_five = window 32 (5 ∷ [])

abbrev handle_seven : List ℕ
handle_seven = window 32 (7 ∷ [])

abbrev two_handles : MockPrecompileState
two_handles = record default_state {
  fhe_handles = (handle_five, from_u64 5) ∷ (handle_seven, from_u64 7) ∷ [];
}

abbrev selector : List ℕ
selector = 1 ∷ 2 ∷ 3 ∷ 4 ∷ []

five-IsWord : IsWord (resolve_fhe two_handles handle_five)
unfolding resolve_fhe from_u64
five-IsWord = record {
  below0 = omega arith;
  below1 = omega arith;
  below2 = omega arith;
  below3 = omega arith;
}

seven-IsWord : IsWord (resolve_fhe two_handles handle_seven)
unfolding resolve_fhe from_u64
seven-IsWord = record {
  below0 = omega arith;
  below1 = omega arith;
  below2 = omega arith;
  below3 = omega arith;
}

dispatch-reveal_example :
    (let r = dispatch first_bytes 0x104 (selector ++ (handle_seven ++ handle_five)) two_handles in
      (w : U256) × (dispatch first_bytes 0x10e (selector ++ r.0) r.1 ≡ (to_be_bytes w, r.1))
      × (value w
          ≡ on_numbers Operation.sub
              (value (resolve_fhe two_handles handle_seven))
              (value (resolve_fhe two_handles handle_five))))
dispatch-reveal_example =
    dispatch-reveal first_bytes (λ bs. length-window 32 bs) Operation.sub two_handles selector
      handle_seven handle_five refl refl refl seven-IsWord five-IsWord
