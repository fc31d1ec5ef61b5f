-- ===== src/Runtime/Precompiles/Homomorphic.antt =====
-- The ciphertext operations of crates/covenant-evm-runtime/src/precompiles.rs act on the plaintexts.
use mathlib.Core.List.{append-nil}
use covenant_language.Base.{
  ℕ, ◌+◌, ◌-◌, ◌*◌, ◌%◌, not, ltb, ◌==◌, ◌^◌, ◌≡◌, refl, sym, ap, ◌∙◌, some, true, List, [], ◌++◌,
  leb, length, length-append, lookup, drop, if◌then◌else◌, arith,
}
use covenant_language.Runtime.Bytes.{bytes_eq_refl, window, window-append, drop-append}
use covenant_language.Runtime.U256.{U256, wrapping_add, wrapping_sub}
use covenant_language.Runtime.U256.Value.{IsWord, value, value-wrapping_add, value-wrapping_sub}
use covenant_language.Runtime.U256.Order.{less_lem, word_eq_lem, flag, value-from_bool}
use covenant_language.Runtime.U256.Mul.{wrapping_mul}
use covenant_language.Runtime.U256.Mul.Product.{value-wrapping_mul}
use covenant_language.Runtime.U256.Bits.{less, word_eq, be_bytes, to_be_bytes}
use covenant_language.Runtime.Precompiles.{
  MockPrecompileState, resolve_fhe, read_word_bytes, fhe_tag, fhe_operations, mint_fhe, fhe_binary,
  reveal_arm, strip_selector, dispatch,
}

strip_selector-append : (sel bs : List ℕ) → length sel ≡ 4 → strip_selector (sel ++ bs) ≡ bs
strip_selector-append sel bs h =
    let long : leb 4 (length (sel ++ bs)) ≡ true = ground (arith, length-append sel bs, h) in
    ap (λ b. if b then drop 4 (sel ++ bs) else sel ++ bs) long ∙ drop-append 4 sel bs h

read_first : (h rest : List ℕ) → length h ≡ 32 → read_word_bytes (h ++ rest) 0 ≡ h
unfolding read_word_bytes
read_first h rest l = window-append 32 h rest l

window_whole : (n : ℕ) (xs : List ℕ) → length xs ≡ n → window n xs ≡ xs
window_whole n xs h = ap (window n) (sym (append-nil xs)) ∙ window-append n xs [] h

read_second : (h k : List ℕ) → length h ≡ 32 → length k ≡ 32 → read_word_bytes (h ++ k) 32 ≡ k
unfolding read_word_bytes
read_second h k l m = ap (window 32) (drop-append 32 h k l) ∙ window_whole 32 k m

read_only : (h : List ℕ) → length h ≡ 32 → read_word_bytes h 0 ≡ h
unfolding read_word_bytes
read_only h l = window_whole 32 h l

-- The operations on two handles whose plaintexts are numbers, the address of each, and what it makes of
-- the numbers.
pub data Operation : Type 0 where
  add sub mul cmp_eq cmp_ne cmp_lt cmp_le cmp_gt cmp_ge : Operation

abbrev pub address_of : Operation → ℕ
address_of Operation.add = 0x103
address_of Operation.sub = 0x104
address_of Operation.mul = 0x105
address_of Operation.cmp_eq = 0x106
address_of Operation.cmp_lt = 0x107
address_of Operation.cmp_gt = 0x108
address_of Operation.cmp_ge = 0x112
address_of Operation.cmp_ne = 0x113
address_of Operation.cmp_le = 0x114

abbrev pub on_numbers : Operation → ℕ → ℕ → ℕ
on_numbers Operation.add a b = (a + b) % 2 ^ 256
on_numbers Operation.sub a b = (a + (2 ^ 256 - b)) % 2 ^ 256
on_numbers Operation.mul a b = a * b % 2 ^ 256
on_numbers Operation.cmp_eq a b = flag (a == b)
on_numbers Operation.cmp_ne a b = flag (not (a == b))
on_numbers Operation.cmp_lt a b = flag (ltb a b)
on_numbers Operation.cmp_le a b = flag (leb a b)
on_numbers Operation.cmp_gt a b = flag (ltb b a)
on_numbers Operation.cmp_ge a b = flag (leb b a)

module _ (a b : U256) (ha : IsWord a) (hb : IsWord b) where
  -- The table has an entry at the address, and the entry computes the number.
  abbrev Entered : Operation → Type 0
  Entered o =
      (f : U256 → U256 → U256) × (lookup (address_of o) fhe_operations ≡ some f)
      × (value (f a b) ≡ on_numbers o (value a) (value b))

  not_less : (p q : ℕ) → not (ltb q p) ≡ leb p q
  not_less p q = ground arith

  entered : (o : Operation) → Entered o
  entered Operation.add = (wrapping_add, refl, value-wrapping_add a b)
  entered Operation.sub = (wrapping_sub, refl, value-wrapping_sub a b hb)
  entered Operation.mul = (wrapping_mul, refl, value-wrapping_mul a b)
  entered Operation.cmp_eq =
      (_, refl, value-from_bool (word_eq a b) ∙ ap flag (word_eq_lem a b ha hb))
  entered Operation.cmp_ne = (
    _,
    refl,
    value-from_bool (not (word_eq a b)) ∙ ap (λ t. flag (not t)) (word_eq_lem a b ha hb),
  )
  entered Operation.cmp_lt = (_, refl, value-from_bool (less a b) ∙ ap flag (less_lem a b ha hb))
  entered Operation.cmp_gt = (_, refl, value-from_bool (less b a) ∙ ap flag (less_lem b a hb ha))
  entered Operation.cmp_le = (
    _,
    refl,
    value-from_bool (not (less b a))
        ∙ ap flag (ap not (less_lem b a hb ha) ∙ not_less (value a) (value b)),
  )
  entered Operation.cmp_ge = (
    _,
    refl,
    value-from_bool (not (less a b))
        ∙ ap flag (ap not (less_lem a b ha hb) ∙ not_less (value b) (value a)),
  )

module _ (keccak : List ℕ → List ℕ) where
  resolve_fhe-mint_fhe :
      (p : U256) (st : MockPrecompileState)
      → resolve_fhe (mint_fhe keccak p st).1 (mint_fhe keccak p st).0 ≡ p
  unfolding mint_fhe resolve_fhe
  resolve_fhe-mint_fhe p st =
      rw (bytes_eq_refl (keccak (fhe_tag ++ be_bytes ((st.fhe_nonce + 1) % 2 ^ 64)))) refl

  dispatch-operation :
      (addr : ℕ) (f : U256 → U256 → U256) (st : MockPrecompileState) (sel h k : List ℕ)
      → lookup addr fhe_operations ≡ some f
      → length sel ≡ 4
      → length h ≡ 32
      → length k ≡ 32
      → dispatch keccak addr (sel ++ (h ++ k)) st
        ≡ mint_fhe keccak (f (resolve_fhe st h) (resolve_fhe st k)) st
  unfolding dispatch fhe_binary
  dispatch-operation addr f st sel h k found ls lh lk =
      rw (found, strip_selector-append sel (h ++ k) ls, read_first h k lh, read_second h k lh lk)
        refl

  dispatch-revealed :
      (st : MockPrecompileState) (sel h : List ℕ)
      → length sel ≡ 4
      → length h ≡ 32
      → dispatch keccak 0x10e (sel ++ h) st ≡ (to_be_bytes (resolve_fhe st h), st)
  unfolding dispatch reveal_arm
  dispatch-revealed st sel h ls lh = rw (strip_selector-append sel h ls, read_only h lh) refl

  length-minted :
      ((bs : List ℕ) → length (keccak bs) ≡ 32)
      → (p : U256) (st : MockPrecompileState) → length (mint_fhe keccak p st).0 ≡ 32
  unfolding mint_fhe
  length-minted long p st = long _

  dispatch-revealed_operation :
      ((bs : List ℕ) → length (keccak bs) ≡ 32)
      → (addr : ℕ) (f : U256 → U256 → U256) (st : MockPrecompileState) (sel h k : List ℕ)
      → lookup addr fhe_operations ≡ some f
      → length sel ≡ 4
      → length h ≡ 32
      → length k ≡ 32
      → (let r = dispatch keccak addr (sel ++ (h ++ k)) st in
          dispatch keccak 0x10e (sel ++ r.0) r.1
          ≡ (to_be_bytes (f (resolve_fhe st h) (resolve_fhe st k)), r.1))
  dispatch-revealed_operation long addr f st sel h k found ls lh lk =
      let p = f (resolve_fhe st h) (resolve_fhe st k) in
      let minted = mint_fhe keccak p st in
      rw (dispatch-operation addr f st sel h k found ls lh lk) (
        dispatch-revealed minted.1 sel minted.0 ls (length-minted long p st)
        ∙ ap (λ v. (to_be_bytes v, minted.1)) (resolve_fhe-mint_fhe p st))

  -- Where the hash and both handles have 32 bytes, the selector has four and the limbs of both
  -- plaintexts are `u64`s, the handle that an operation answers with reveals a word whose number is the
  -- operation on the plaintexts' numbers: the sum, difference or product modulo 2 ^ 256, or the truth
  -- value of the comparison. The revealing changes no state.
  pub dispatch-reveal :
      ((bs : List ℕ) → length (keccak bs) ≡ 32)
      → (o : Operation) (st : MockPrecompileState) (sel h k : List ℕ) → length sel ≡ 4
      → length h ≡ 32
      → length k ≡ 32
      → IsWord (resolve_fhe st h)
      → IsWord (resolve_fhe st k)
      → (let r = dispatch keccak (address_of o) (sel ++ (h ++ k)) st in
          (w : U256) × (dispatch keccak 0x10e (sel ++ r.0) r.1 ≡ (to_be_bytes w, r.1))
          × (value w ≡ on_numbers o (value (resolve_fhe st h)) (value (resolve_fhe st k))))
  dispatch-reveal long o st sel h k ls lh lk wh wk =
      let (f, found, computes) = entered (resolve_fhe st h) (resolve_fhe st k) wh wk o in
      (
        f (resolve_fhe st h) (resolve_fhe st k),
        dispatch-revealed_operation long (address_of o) f st sel h k found ls lh lk,
        computes,
      )
