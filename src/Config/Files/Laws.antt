-- ===== src/Config/Files/Laws.antt =====
-- What a key file of crates/console-server/src/config.rs must be, and what is taken of it.
use Prim.Native.Nat.{bit_and}
use muser_console.Base.{
  ℕ, zero, suc, ◌≤◌, true, false, ◌==◌, ==_iff, ltb, Text, List, [], ◌∷◌, ◌++◌, length,
  length-append, all, All, reverse, some, ◌≡◌, ◌≢◌, refl, sym, ap, ◌∙◌, subst, inl, inr, arith,
  Bool-cases, Option-cases, append-nil, append_assoc,
}
use mathlib.Core.List.{reverse-append, reverse-reverse}
use muser_console.Config.Result.{ok}
use muser_console.Config.Files.{
  Entry, Disk, take, open_file, read_private_file, is_blank, skip_blank, trimmed, load_key_file,
}

abbrev Blank : List ℕ → Type 0
Blank = All (λ b. is_blank b ≡ true)

skip_blank-splits : (s : List ℕ) → (front : List ℕ) × (s ≡ front ++ skip_blank s) × Blank front
skip_blank-splits [] = ([], refl, tt)
skip_blank-splits (b ∷ s) = elim (Bool-cases (is_blank b)) [
  | inl e ↦
      let (front, same, blank) = skip_blank-splits s in
      (b ∷ front, rw (skip_blank, e) (ap (◌∷◌ b) same), (e, blank))
  | inr e ↦ ([], rw (skip_blank, e) refl, tt)
]

-- the first byte, if there is one, is not blank
abbrev pub IsSolidAt : List ℕ → Type 0
IsSolidAt [] = Unit
IsSolidAt (b ∷ _) = is_blank b ≡ false

skip_blank-IsSolidAt : (s : List ℕ) → IsSolidAt (skip_blank s)
skip_blank-IsSolidAt [] = tt
skip_blank-IsSolidAt (b ∷ s) = elim (Bool-cases (is_blank b)) [
  | inl e ↦ rw (skip_blank, e) (skip_blank-IsSolidAt s)
  | inr e ↦ rw (skip_blank, e) e
]

Blank-reverse : (s t : List ℕ) → Blank s → Blank t → Blank (reverse s ++ t)
Blank-reverse [] t h k = k
Blank-reverse (b ∷ s) t (hb, h) k =
    subst Blank
      (sym (ap (λ x. x ++ t) (reverse-append (b ∷ []) s) ∙ append_assoc (reverse s) (b ∷ []) t))
      (Blank-reverse s (b ∷ t) h (hb, k))

all-Blank : (s : List ℕ) → Blank s → all is_blank s ≡ true
all-Blank [] h = refl
all-Blank (b ∷ s) (hb, h) = ground (arith, hb, all-Blank s h)

front-IsSolidAt : (s t : List ℕ) → IsSolidAt (s ++ t) → IsSolidAt s
front-IsSolidAt [] t h = tt
front-IsSolidAt (b ∷ s) t h = h

-- What is taken of a file: everything between the blanks before and behind it.
abbrev pub IsTrimmed : List ℕ → List ℕ → Type 0
IsTrimmed value key =
    (front : List ℕ) × (back : List ℕ) × (value ≡ front ++ (key ++ back))
    × Blank front
    × Blank back
    × IsSolidAt key
    × IsSolidAt (reverse key)

trimmed-IsTrimmed : (s : List ℕ) → IsTrimmed s (trimmed s)
trimmed-IsTrimmed s =
    let (front, e, blank) = skip_blank-splits s in
    let w = skip_blank s in
    let (f, e', blank') = skip_blank-splits (reverse w) in
    let parts : w ≡ trimmed s ++ reverse f =
      sym (reverse-reverse w) ∙ ap reverse e' ∙ reverse-append f (skip_blank (reverse w)) in
    (
      front,
      reverse f,
      e ∙ ap (λ x. front ++ x) parts,
      blank,
      subst Blank (append-nil (reverse f)) (Blank-reverse f [] blank' tt),
      front-IsSolidAt (trimmed s) (reverse f) (subst IsSolidAt parts (skip_blank-IsSolidAt s)),
      subst IsSolidAt (sym (reverse-reverse (skip_blank (reverse w))))
          (skip_blank-IsSolidAt (reverse w)),
    )

Blank-append : (s t : List ℕ) → Blank s → Blank t → Blank (s ++ t)
Blank-append [] t h k = k
Blank-append (b ∷ s) t (hb, h) k = (hb, Blank-append s t h k)

-- a key: neither empty nor longer than 4096 bytes, and without a blank at either end
abbrev pub IsKey : List ℕ → Type 0
IsKey key = (key ≢ []) × (length key ≤ 4096) × IsSolidAt key × IsSolidAt (reverse key)

trimmed-IsKey :
    (value : List ℕ) → all is_blank value ≡ false → length value ≤ 4096 → IsKey (trimmed value)
trimmed-IsKey value some_solid short =
    let (front, back, e, bf, bb, first, final) = trimmed-IsTrimmed value in
    (
      λ empty.
          let blank : Blank value =
            subst Blank (sym (e ∙ ap (λ k. front ++ (k ++ back)) empty))
              (Blank-append front back bf bb) in
          cc (sym (all-Blank value blank) ∙ some_solid),
      omega (
        arith,
        ap length e,
        length-append front (trimmed value ++ back),
        length-append (trimmed value) back,
      ),
      first,
      final,
    )

not_ltb : (a b : ℕ) → ltb a b ≡ false → b ≤ a
not_ltb a b h = ground arith

-- what is not longer than the limit is read whole
take-whole : (n : ℕ) (bytes : List ℕ) → length (take (suc n) bytes) ≤ n → take (suc n) bytes ≡ bytes
take-whole n [] h = refl
take-whole zero (b ∷ bytes) h = absurd (omega (arith, h))
take-whole (suc n) (b ∷ bytes) h = ap (◌∷◌ b) (take-whole n bytes (omega (arith, h)))

-- A key is taken only from a regular file that is no symbolic link and that neither group nor others may
-- touch, and whose content has at most 4096 bytes; it is the whole content without the blanks around it, and
-- is not empty.
pub load_key_file_sound :
    (disk : Disk) (path : Text) (key : List ℕ)
    → load_key_file disk path ≡ ok key
    → (entry : Entry) × (content : List ℕ) × (disk path ≡ some entry)
      × (entry.is_symlink ≡ false)
      × (entry.is_file ≡ true)
      × (bit_and (bit_and entry.mode 0o7777) 0o77 ≡ 0)
      × (entry.bytes ≡ some content)
      × (length content ≤ 4096)
      × IsTrimmed content key
      × IsKey key
unfolding load_key_file read_private_file
load_key_file_sound disk path key h = elim (Option-cases (disk path)) [
  | inl missing ↦ absurd (ground (arith, h, missing))
  | inr (entry, there) ↦ elim (Option-cases entry.bytes) [
    | inl unread ↦ absurd (ground (arith, h, there, unread))
    | inr (content, read) ↦
        let value = take 4097 content in
        let link : entry.is_symlink ≡ false = ground (arith, h, there) in
        let file : entry.is_file ≡ true = ground (arith, h, there) in
        let mode : (bit_and (bit_and entry.mode 0o7777) 0o77 == 0) ≡ true =
          ground (arith, h, there) in
        let solid : all is_blank value ≡ false = ground (arith, h, there, read) in
        let short : ltb 4096 (length value) ≡ false = ground (arith, h, there, read) in
        let made : ok (trimmed value) ≡ ok key =
          rw
            (
              load_key_file, read_private_file, open_file, there, read, link, file, mode, solid,
              short,
            )
            at h in
        let same : trimmed value ≡ key = cc made in
        let fits = not_ltb 4096 (length value) short in
        let all_read : value ≡ content = take-whole 4096 content fits in
        (
          entry,
          content,
          there,
          link,
          file,
          (==_iff (bit_and (bit_and entry.mode 0o7777) 0o77) 0).0 mode,
          read,
          subst (λ x. length x ≤ 4096) all_read fits,
          subst (IsTrimmed content) same
              (subst (λ x. IsTrimmed x (trimmed value)) all_read (trimmed-IsTrimmed value)),
          subst IsKey same (trimmed-IsKey value solid fits),
        )
  ]
]
