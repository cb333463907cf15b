-- ===== src/Http/Laws.antt =====
-- What the operations on a header map do to each other: removals are filters on the names.
use muser_console.Base.{
  ℕ, Bool, true, false, ◌||◌, Text, text_eq, text_eq_iff, text_eq_refl, List, [], ◌∷◌, Bool-cases,
  ◌≡◌, refl, sym, ap, ◌∙◌, inl, inr, arith, if◌then◌else◌, ◌++◌,
}
use muser_console.Http.{HeaderMap, get_all, remove, insert}

-- whether a name is on a list
abbrev pub names : List Text → Text → Bool
names [] n = false
names (x ∷ xs) n = text_eq n x || names xs n

-- the removals of a list of names, in order
abbrev pub remove_all : HeaderMap → List Text → HeaderMap
remove_all headers [] = headers
remove_all headers (n ∷ ns) = remove_all (remove headers n) ns

pub remove_all-append :
    (ns ms : List Text) (headers : HeaderMap)
    → remove_all headers (ns ++ ms) ≡ remove_all (remove_all headers ns) ms
remove_all-append [] ms headers = refl
remove_all-append (n ∷ ns) ms headers = remove_all-append ns ms (remove headers n)

-- A removal leaves the values of the other names.
pub get_all-remove :
    (n m : Text) (headers : HeaderMap)
    → get_all (remove headers n) m ≡ (if text_eq m n then [] else get_all headers m)
get_all-remove n m [] = elim (Bool-cases (text_eq m n)) [ inl e ↦ rw e refl | inr e ↦ rw e refl ]
get_all-remove n m ((k, v) ∷ headers) =
    ground (arith, get_all-remove n m headers, text_eq_iff k n, text_eq_iff k m, text_eq_iff m n)

pub get_all-remove_all :
    (ns : List Text) (m : Text) (headers : HeaderMap)
    → get_all (remove_all headers ns) m ≡ (if names ns m then [] else get_all headers m)
get_all-remove_all [] m headers = refl
get_all-remove_all (n ∷ ns) m headers =
    ground (arith, get_all-remove_all ns m (remove headers n), get_all-remove n m headers)

-- The values under a name after an insertion.
pub get_all-insert :
    (n m : Text) (v : List ℕ) (headers : HeaderMap)
    → get_all (insert headers n v) m ≡ (if text_eq m n then v ∷ [] else get_all headers m)
get_all-insert n m v headers =
    ground (arith, get_all-remove n m headers, text_eq_iff n m, text_eq_iff m n)

-- Removals commute, and a second one of the same name does nothing.
pub remove_comm :
    (n m : Text) (headers : HeaderMap) → remove (remove headers n) m ≡ remove (remove headers m) n
remove_comm n m [] = refl
remove_comm n m ((k, v) ∷ headers) = ground (arith, remove_comm n m headers)

pub remove_again : (n : Text) (headers : HeaderMap) → remove (remove headers n) n ≡ remove headers n
remove_again n [] = refl
remove_again n ((k, v) ∷ headers) = ground (arith, remove_again n headers)

-- Removals of a list of names that has `n` do not see an earlier removal of `n`.
pub remove_all-absorbs :
    (ns : List Text) (n : Text) (headers : HeaderMap)
    → names ns n ≡ true
    → remove_all (remove headers n) ns ≡ remove_all headers ns
remove_all-absorbs [] n headers h = cc
remove_all-absorbs (m ∷ ns) n headers h = elim (Bool-cases (text_eq n m)) [
  | inl same ↦ rw (sym ((text_eq_iff n m).0 same), remove_again n headers) refl
  | inr other ↦
      rw (remove_comm n m headers)
        (remove_all-absorbs ns n (remove headers m) (ground (arith, h, other)))
]

pub remove-insert :
    (n : Text) (v : List ℕ) (headers : HeaderMap) → remove (insert headers n v) n ≡ remove headers n
remove-insert n v headers = rw (text_eq_refl n) (remove_again n headers)

pub names-append : (ns ms : List Text) (n : Text) → names (ns ++ ms) n ≡ (names ns n || names ms n)
names-append [] ms n = refl
names-append (x ∷ ns) ms n = ground (arith, names-append ns ms n)

-- Removals of a list of names that has `n` do not see what is inserted under `n`.
pub remove_all-insert :
    (ns : List Text) (n : Text) (v : List ℕ) (headers : HeaderMap)
    → names ns n ≡ true
    → remove_all (insert headers n v) ns ≡ remove_all headers ns
remove_all-insert ns n v headers h =
    sym (remove_all-absorbs ns n (insert headers n v) h)
    ∙ ap (λ x. remove_all x ns) (remove-insert n v headers)
    ∙ remove_all-absorbs ns n headers h
