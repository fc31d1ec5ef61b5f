-- ===== src/Types/Ty.antt =====
-- crates/covenant-types/src/ty.rs: the internal type representation of the checker.
-- `Box` is transparent; `Vec<Ty>` inside `Fn` is the list type `Tys` of the same block. The
-- nominal ids are the `u32`s that they wrap.
use covenant_language.Base.{
  ℕ, Bool, true, false, ◌&&◌, ◌||◌, Option, none, some, ◌==◌, ==_iff, ==-refl, &&-split, ◌≡◌, ◌∙◌,
  sym, [], ◌∷◌, get_or, refl, ap, ap₂,
}

pub data PqOrdering : Type 0 where
  max_first min_first : PqOrdering

pub data StdlibModuleTag : Type 0 where
  pq_keys encrypted_tokens fhe_verification amnesia math crypto encoding testing : StdlibModuleTag

pub data Namespace : Type 0 where
  msg block : Namespace

mutual
  pub data Ty : Type 0 where
    amount time duration hash text address bool bytes pq_key : Ty
    choice struct credential : ℕ → Ty
    ciphertext list : Ty → Ty
    map : Ty → Ty → Ty
    priority_queue : Ty → Ty → PqOrdering → Ty
    shares : ℕ → ℕ → Ty → Ty
    fn : Tys → Ty → Ty
    stdlib_module : StdlibModuleTag → Ty
    namespace : Namespace → Ty
    unit unknown : Ty

  pub data Tys : Type 0 where
    nil : Tys
    cons : Ty → Tys → Tys

-- The derived equality.
abbrev pub ordering_eq : PqOrdering → PqOrdering → Bool
ordering_eq PqOrdering.max_first PqOrdering.max_first = true
ordering_eq PqOrdering.min_first PqOrdering.min_first = true
ordering_eq _ _ = false

abbrev pub namespace_eq : Namespace → Namespace → Bool
namespace_eq Namespace.msg Namespace.msg = true
namespace_eq Namespace.block Namespace.block = true
namespace_eq _ _ = false

abbrev pub tag_index : StdlibModuleTag → ℕ
tag_index StdlibModuleTag.pq_keys = 0
tag_index StdlibModuleTag.encrypted_tokens = 1
tag_index StdlibModuleTag.fhe_verification = 2
tag_index StdlibModuleTag.amnesia = 3
tag_index StdlibModuleTag.math = 4
tag_index StdlibModuleTag.crypto = 5
tag_index StdlibModuleTag.encoding = 6
tag_index StdlibModuleTag.testing = 7

unfoldable mutual
  pub ty_eq : Ty → Ty → Bool
  ty_eq amount amount = true
  ty_eq time time = true
  ty_eq duration duration = true
  ty_eq hash hash = true
  ty_eq text text = true
  ty_eq address address = true
  ty_eq bool bool = true
  ty_eq bytes bytes = true
  ty_eq pq_key pq_key = true
  ty_eq unit unit = true
  ty_eq unknown unknown = true
  ty_eq (choice i) (choice j) = i == j
  ty_eq (struct i) (struct j) = i == j
  ty_eq (credential i) (credential j) = i == j
  ty_eq (ciphertext a) (ciphertext b) = ty_eq a b
  ty_eq (list a) (list b) = ty_eq a b
  ty_eq (map k v) (map l w) = ty_eq k l && ty_eq v w
  ty_eq (priority_queue k v o) (priority_queue l w p) = (ty_eq k l && ty_eq v w) && ordering_eq o p
  ty_eq (shares n k a) (shares m l b) = ((n == m) && (k == l)) && ty_eq a b
  ty_eq (fn ps a) (fn qs b) = tys_eq ps qs && ty_eq a b
  ty_eq (stdlib_module a) (stdlib_module b) = tag_index a == tag_index b
  ty_eq (namespace a) (namespace b) = namespace_eq a b
  ty_eq _ _ = false

  pub tys_eq : Tys → Tys → Bool
  tys_eq nil nil = true
  tys_eq (cons a as') (cons b bs) = ty_eq a b && tys_eq as' bs
  tys_eq _ _ = false

unfoldable pub is_ciphertext : Ty → Bool
is_ciphertext (ciphertext _) = true
is_ciphertext _ = false

unfoldable pub strip_ciphertext : Ty → Option Ty
strip_ciphertext (ciphertext t) = some t
strip_ciphertext _ = none

unfoldable pub wrap_ciphertext : Ty → Ty
wrap_ciphertext (ciphertext t) = ciphertext t
wrap_ciphertext t = ciphertext t

unfoldable pub is_eq_comparable : Ty → Bool
is_eq_comparable amount = true
is_eq_comparable time = true
is_eq_comparable duration = true
is_eq_comparable hash = true
is_eq_comparable address = true
is_eq_comparable bool = true
is_eq_comparable text = true
is_eq_comparable bytes = true
is_eq_comparable (choice _) = true
is_eq_comparable pq_key = true
is_eq_comparable (struct _) = true
is_eq_comparable (credential _) = true
is_eq_comparable _ = false

unfoldable pub is_ord_comparable : Ty → Bool
is_ord_comparable amount = true
is_ord_comparable time = true
is_ord_comparable duration = true
is_ord_comparable _ = false

abbrev pub is_unknown : Ty → Bool
is_unknown unknown = true
is_unknown _ = false

unfoldable pub compatible : Ty → Ty → Bool
unfolding ty_eq
compatible a b = is_unknown a || is_unknown b || ty_eq a b

tag_at : ℕ → StdlibModuleTag → StdlibModuleTag
tag_at n d =
    get_or
      (StdlibModuleTag.pq_keys ∷ StdlibModuleTag.encrypted_tokens ∷ StdlibModuleTag.fhe_verification
        ∷ StdlibModuleTag.amnesia ∷ StdlibModuleTag.math ∷ StdlibModuleTag.crypto
        ∷ StdlibModuleTag.encoding ∷ [])
      n d

tag_at-tag_index : (t : StdlibModuleTag) → tag_at (tag_index t) StdlibModuleTag.testing ≡ t
unfolding tag_at
tag_at-tag_index StdlibModuleTag.pq_keys = refl
tag_at-tag_index _ = refl

tag_index_injective : (a b : StdlibModuleTag) → tag_index a ≡ tag_index b → a ≡ b
tag_index_injective a b e =
    sym (tag_at-tag_index a)
    ∙ ap (λ (n : ℕ). tag_at n StdlibModuleTag.testing) e
    ∙ tag_at-tag_index b

namespace_eq_sound : (a b : Namespace) → namespace_eq a b ≡ true → a ≡ b
namespace_eq_sound Namespace.msg Namespace.msg h = refl
namespace_eq_sound Namespace.block Namespace.block h = refl
namespace_eq_sound _ _ h = cc

ordering_eq_sound : (a b : PqOrdering) → ordering_eq a b ≡ true → a ≡ b
ordering_eq_sound PqOrdering.max_first PqOrdering.max_first h = refl
ordering_eq_sound PqOrdering.min_first PqOrdering.min_first h = refl
ordering_eq_sound _ _ h = cc

queue_eq :
    (k l v w : Ty) (o p : PqOrdering)
    → k ≡ l
    → v ≡ w
    → o ≡ p
    → priority_queue k v o ≡ priority_queue l w p
queue_eq k l v w o p a b c = cc

shares_eq : (n k m l : ℕ) (a b : Ty) → n ≡ m → k ≡ l → a ≡ b → shares n k a ≡ shares m l b
shares_eq n k m l a b p q r = cc

mutual
  unfolding ty_eq

  pub ty_eq_sound : (a b : Ty) → ty_eq a b ≡ true → a ≡ b
  ty_eq_sound amount amount h = refl
  ty_eq_sound time time h = refl
  ty_eq_sound duration duration h = refl
  ty_eq_sound hash hash h = refl
  ty_eq_sound text text h = refl
  ty_eq_sound address address h = refl
  ty_eq_sound bool bool h = refl
  ty_eq_sound bytes bytes h = refl
  ty_eq_sound pq_key pq_key h = refl
  ty_eq_sound unit unit h = refl
  ty_eq_sound unknown unknown h = refl
  ty_eq_sound (choice i) (choice j) h = ap choice ((==_iff i j).0 h)
  ty_eq_sound (struct i) (struct j) h = ap struct ((==_iff i j).0 h)
  ty_eq_sound (credential i) (credential j) h = ap credential ((==_iff i j).0 h)
  ty_eq_sound (ciphertext a) (ciphertext b) h = ap ciphertext (ty_eq_sound a b h)
  ty_eq_sound (list a) (list b) h = ap list (ty_eq_sound a b h)
  ty_eq_sound (map k v) (map l w) h =
      let (x, y) = &&-split (ty_eq k l) (ty_eq v w) h in
      ap₂ map (ty_eq_sound k l x) (ty_eq_sound v w y)
  ty_eq_sound (priority_queue k v o) (priority_queue l w p) h =
      let (kv, z) = &&-split (ty_eq k l && ty_eq v w) (ordering_eq o p) h in
      let (x, y) = &&-split (ty_eq k l) (ty_eq v w) kv in
      queue_eq k l v w o p (ty_eq_sound k l x) (ty_eq_sound v w y) (ordering_eq_sound o p z)
  ty_eq_sound (shares n k a) (shares m l b) h =
      let (nk, t) = &&-split (n == m && k == l) (ty_eq a b) h in
      let (p, q) = &&-split (n == m) (k == l) nk in
      shares_eq n k m l a b ((==_iff n m).0 p) ((==_iff k l).0 q) (ty_eq_sound a b t)
  ty_eq_sound (fn ps a) (fn qs b) h =
      let (x, y) = &&-split (tys_eq ps qs) (ty_eq a b) h in
      ap₂ fn (tys_eq_sound ps qs x) (ty_eq_sound a b y)
  ty_eq_sound (stdlib_module a) (stdlib_module b) h =
      ap stdlib_module (tag_index_injective a b ((==_iff (tag_index a) (tag_index b)).0 h))
  ty_eq_sound (namespace a) (namespace b) h = ap namespace (namespace_eq_sound a b h)
  ty_eq_sound _ _ h = cc

  tys_eq_sound : (a b : Tys) → tys_eq a b ≡ true → a ≡ b
  tys_eq_sound nil nil h = refl
  tys_eq_sound (cons a as') (cons b bs) h =
      let (x, y) = &&-split (ty_eq a b) (tys_eq as' bs) h in
      ap₂ cons (ty_eq_sound a b x) (tys_eq_sound as' bs y)
  tys_eq_sound _ _ h = cc

mutual
  unfolding ty_eq

  pub ty_eq_refl : (a : Ty) → ty_eq a a ≡ true
  ty_eq_refl (choice i) = ==-refl i
  ty_eq_refl (struct i) = ==-refl i
  ty_eq_refl (credential i) = ==-refl i
  ty_eq_refl (ciphertext a) = ty_eq_refl a
  ty_eq_refl (list a) = ty_eq_refl a
  ty_eq_refl (map k v) = rw (ty_eq_refl k) (ty_eq_refl v)
  ty_eq_refl (priority_queue k v PqOrdering.max_first) = rw (ty_eq_refl k, ty_eq_refl v)
  ty_eq_refl (priority_queue k v PqOrdering.min_first) = rw (ty_eq_refl k, ty_eq_refl v)
  ty_eq_refl (shares n k a) = rw (==-refl n, ==-refl k) (ty_eq_refl a)
  ty_eq_refl (fn ps a) = rw (tys_eq_refl ps) (ty_eq_refl a)
  ty_eq_refl (stdlib_module t) = ==-refl (tag_index t)
  ty_eq_refl (namespace Namespace.msg) = refl
  ty_eq_refl (namespace Namespace.block) = refl
  ty_eq_refl _ = refl

  tys_eq_refl : (as' : Tys) → tys_eq as' as' ≡ true
  tys_eq_refl nil = refl
  tys_eq_refl (cons a as') = rw (ty_eq_refl a) (tys_eq_refl as')
