-- ===== src/Tests/Arrays.antt =====
-- The arrays of the test environment keep to the documentation of utils/array.h.
use pomelo_udp_webrtc_plugin.Base.{
  ℕ, zero, suc, ◌<◌, ◌≡◌, ◌≢◌, refl, ap, some, List, [], ◌∷◌, ◌++◌, length, length-take,
  length-append, take, get_elem?, arith,
}
use pomelo_udp_webrtc_plugin.Session.Auth.Channels.{ArrayLaws}
use pomelo_udp_webrtc_plugin.Tests.Fixture.{list_size, list_set, blanks, list_array}

module _ {A : Type 0} where
  length-blanks : (blank : A) (n : ℕ) → length (blanks blank n) ≡ n
  length-blanks blank zero = refl
  length-blanks blank (suc n) = ap suc (length-blanks blank n)

  length-list_set : (xs : List A) (i : ℕ) (x : A) → length (list_set xs i x) ≡ length xs
  length-list_set [] i x = refl
  length-list_set (y ∷ ys) zero x = refl
  length-list_set (y ∷ ys) (suc i) x = ap suc (length-list_set ys i x)

  get-list_set :
      (xs : List A) (i : ℕ) (x : A) → i < length xs → get_elem? (list_set xs i x) i ≡ some x
  get-list_set [] i x h = absurd (omega (arith, h))
  get-list_set (y ∷ ys) zero x h = refl
  get-list_set (y ∷ ys) (suc i) x h = get-list_set ys i x (omega (arith, h))

  get-list_set_other :
      (xs : List A) (i j : ℕ) (x : A) → i ≢ j → get_elem? (list_set xs i x) j ≡ get_elem? xs j
  get-list_set_other [] i j x h = refl
  get-list_set_other (y ∷ ys) zero zero x h = absurd (h refl)
  get-list_set_other (y ∷ ys) zero (suc j) x h = refl
  get-list_set_other (y ∷ ys) (suc i) zero x h = refl
  get-list_set_other (y ∷ ys) (suc i) (suc j) x h = get-list_set_other ys i j x (λ e. h (ap suc e))

  length-resized : (xs : List A) (blank : A) (n : ℕ) → length (take n (xs ++ blanks blank n)) ≡ n
  length-resized xs blank n = omega (
    arith,
    length-take n (xs ++ blanks blank n),
    length-append xs (blanks blank n),
    length-blanks blank n,
  )

  list_size_same : (xs ys : List A) → length xs ≡ length ys → list_size xs ≡ list_size ys
  list_size_same xs ys h = rw h refl

  pub list_array-ArrayLaws : (blank : A) → ArrayLaws (list_array blank)
  list_array-ArrayLaws blank = record {
    size-resize = λ xs ys n e. ground (arith, e, length-resized xs blank n);
    size-fill_zero =
        λ xs. list_size_same (blanks blank (length xs)) xs (length-blanks blank (length xs));
    size-set = λ xs i x. list_size_same (list_set xs i x) xs (length-list_set xs i x);
    get-set = λ xs i x h. get-list_set xs i x (ground (arith, h));
    get-set_other = get-list_set_other;
  }
