-- ===== src/Catalog/Laws.antt =====
-- What the catalog's tables and vocabularies satisfy.
use muser_console.Base.{
  ℕ, Bool, true, false, not, ◌&&◌, ◌||◌, ◌==◌, Text, codes, text_eq, text_eq_iff, text_eq→eq,
  starts_with, if◌then◌else◌, Option, none, some, is_some, List, [], ◌∷◌, ◌++◌, map, All, Any,
  retain, find, ◌≡◌, ◌≢◌, ◌↔◌, ◌⊎◌, inl, inr, refl, arith, and_split, Bool-cases, length, any, ap,
  subst,
}
use muser_console.Base
use muser_console.Catalog.Series.{
  Series, Extraction, prometheus, snapshot, transfers_active, transfer_last, agent,
}
use muser_console.Catalog.Source.{Source, from_stored}
use muser_console.Catalog.Source
use muser_console.Catalog.Honesty.{Honesty, from_tag}
use muser_console.Catalog.Honesty
use muser_console.Catalog.Agents.{gpu_indices}
use muser_console.Catalog.Lookup.{all, lookup}

-- No name of the list stands a second time behind its first place.
abbrev Distinct : List Series → Type 0
Distinct [] = Unit
Distinct (s ∷ rest) = All (λ t. s.name ≢ t.name) rest × Distinct rest

lacks : Text → List Series → Bool
lacks name [] = true
lacks name (t ∷ rest) = not (text_eq name t.name) && lacks name rest

distinct : List Series → Bool
unfolding lacks
distinct [] = true
distinct (s ∷ rest) = lacks s.name rest && distinct rest

lacks_sound : (name : Text) (l : List Series) → lacks name l ≡ true → All (λ t. name ≢ t.name) l
unfolding lacks
lacks_sound name [] h = tt
lacks_sound name (t ∷ rest) h =
    let (a, b) = and_split (not (text_eq name t.name)) (lacks name rest) h in
    (λ e. ground (arith, (text_eq_iff name t.name).1 e), lacks_sound name rest b)

distinct_sound : (l : List Series) → distinct l ≡ true → Distinct l
unfolding distinct
distinct_sound [] h = tt
distinct_sound (s ∷ rest) h =
    let (a, b) = and_split (lacks s.name rest) (distinct rest) h in
    (lacks_sound s.name rest a, distinct_sound rest b)

-- No two series of the catalog share a name.
all-Distinct : Distinct all
all-Distinct = distinct_sound all (unfold all distinct in refl)

-- `s` is an entry of the list
abbrev pub Entry : Series → List Series → Type 0
Entry s = Any (λ t. t ≡ s)

name_of_entry :
    (s : Series) (P : Text → Type 0) (l : List Series)
    → All (λ t. P t.name) l
    → Entry s l
    → P s.name
name_of_entry s P [] h e = elim e [ ]
name_of_entry s P (t ∷ l) (h, hs) (inl e) = subst (λ x. P x.name) e h
name_of_entry s P (t ∷ l) (h, hs) (inr e) = name_of_entry s P l hs e

find-Entry :
    (s : Series) (l : List Series)
    → Distinct l
    → Entry s l
    → find (λ t. text_eq t.name s.name) l ≡ some s
find-Entry s [] d e = elim e [ ]
find-Entry s (t ∷ l) (d, ds) (inl e) =
    rw ((text_eq_iff t.name s.name).1 (ap (λ x. x.name) e)) (ap some e)
find-Entry s (t ∷ l) (d, ds) (inr e) = elim (Bool-cases (text_eq t.name s.name)) [
  | inl hit ↦ absurd (name_of_entry s (λ name. t.name ≢ name) l d e (text_eq→eq t.name s.name hit))
  | inr miss ↦ rw miss (find-Entry s l ds e)
]

Entry-of_find :
    (name : Text) (s : Series) (l : List Series)
    → find (λ t. text_eq t.name name) l ≡ some s
    → Entry s l × (s.name ≡ name)
Entry-of_find name s [] h = cc
Entry-of_find name s (t ∷ l) h = elim (Bool-cases (text_eq t.name name)) [
  | inl hit ↦
      let e : t ≡ s = ground arith in
      (inl e, subst (λ (x : Series). x.name ≡ name) e (text_eq→eq t.name name hit))
  | inr miss ↦ let (a, b) = Entry-of_find name s l (rw miss at h) in (inr a, b)
]

-- A lookup finds exactly the entry of the catalog that has the name: it returns `s` if and only if
-- `s` is an entry and bears the name, so each name has one series and one source.
pub lookup_iff :
    (name : Text) (s : Series) → (lookup name ≡ some s) ↔ (Entry s all × (s.name ≡ name))
unfolding lookup
lookup_iff name s = (
  Entry-of_find name s all,
  λ (e, n).
      subst (λ x. find (λ t. text_eq t.name x) all ≡ some s) n (find-Entry s all all-Distinct e),
)

-- What the tests of the source ask of an entry: its extraction reads the plane of its source, only a
-- snapshot series names an `_honesty` path, and an agent's series says in its name which device it
-- reads, or that it reads the host.
abbrev coherent_with : Series → Source → Extraction → Option Text → Bool
coherent_with s Source.metrics (prometheus metric quantile) none = true
coherent_with s Source.snapshot (snapshot path) (some p) = true
coherent_with s Source.snapshot transfers_active (some p) = true
coherent_with s Source.snapshot (transfer_last field scale) (some p) = true
coherent_with s Source.agent (agent metric (some index)) none =
    starts_with s.name (codes "gpu" ++ (index ++ codes "_"))
    && (starts_with metric (codes "muser_gpu_") && any (text_eq index) gpu_indices)
coherent_with s Source.agent (agent metric none) none = starts_with s.name (codes "host_")
coherent_with s _ _ _ = false

abbrev pub coherent : Series → Bool
coherent s = coherent_with s s.source s.extraction s.honesty_path

-- a test that passes on the whole list passes on each entry
all_entries :
    (p : Series → Bool) (s : Series) (l : List Series)
    → Base.all p l ≡ true
    → Entry s l
    → p s ≡ true
all_entries p s [] h e = elim e [ ]
all_entries p s (t ∷ l) h (inl e) = subst (λ x. p x ≡ true) e (and_split (p t) (Base.all p l) h).0
all_entries p s (t ∷ l) h (inr e) = all_entries p s l (and_split (p t) (Base.all p l) h).1 e

all-coherent : Base.all coherent all ≡ true
unfolding all
all-coherent = refl

-- Every entry of the catalog is coherent.
pub Entry-coherent : (s : Series) → Entry s all → coherent s ≡ true
Entry-coherent s = all_entries coherent s all all-coherent

no_dflash_agent :
    Base.all
      (λ s. not (Source.same s.source Source.agent && starts_with s.name (codes "dflash_")))
      all
    ≡ true
unfolding all
no_dflash_agent = refl

-- The optional features that the sampler gates by name have no series of an agent.
pub agent-no_dflash :
    (name : Text) (s : Series)
    → lookup name ≡ some s
    → s.source ≡ Source.agent
    → starts_with name (codes "dflash_") ≡ false
agent-no_dflash name s found tagged =
    let (entry, named) = (lookup_iff name s).0 found in
    let whole =
      all_entries
        (λ t. not (Source.same t.source Source.agent && starts_with t.name (codes "dflash_"))) s all
        no_dflash_agent entry in
    let plain : (not (Source.same Source.agent Source.agent && starts_with s.name (codes "dflash_"))
        ≡ true) =
      subst (λ x. not (Source.same x Source.agent && starts_with s.name (codes "dflash_")) ≡ true)
        tagged whole in
    subst (λ n. starts_with n (codes "dflash_") ≡ false) named (ground (arith, plain))

measured_tag : (tag : Text) (h : Honesty) → from_tag tag ≡ some h → tag ≡ Honesty.as_str h
unfolding from_tag
measured_tag tag h e = ground (
  arith,
  text_eq_iff tag (codes "measured"),
  text_eq_iff tag (codes "target"),
  text_eq_iff tag (codes "agent-measured"),
)

-- A tag is read as an honesty value if and only if it is the text of that value: the reading inverts
-- `as_str`, and `mock`, the empty text and every other tag are read as nothing.
pub from_tag_iff : (tag : Text) (h : Honesty) → (from_tag tag ≡ some h) ↔ (tag ≡ Honesty.as_str h)
unfolding from_tag
from_tag_iff tag Honesty.measured = (measured_tag tag Honesty.measured, λ e. rw e)
from_tag_iff tag Honesty.target = (measured_tag tag Honesty.target, λ e. rw e)
from_tag_iff tag Honesty.agent_measured = (measured_tag tag Honesty.agent_measured, λ e. rw e)

stored_source : (text : Text) (s : Source) → from_stored text ≡ some s → text ≡ Source.as_str s
unfolding from_stored
stored_source text s e = ground (
  arith,
  text_eq_iff text (codes "metrics"),
  text_eq_iff text (codes "snapshot"),
  text_eq_iff text (codes "agent"),
)

-- A stored text is read as a source if and only if it is the text that the source is stored as.
pub from_stored_iff :
    (text : Text) (s : Source) → (from_stored text ≡ some s) ↔ (text ≡ Source.as_str s)
unfolding from_stored
from_stored_iff text Source.metrics = (stored_source text Source.metrics, λ e. rw e)
from_stored_iff text Source.snapshot = (stored_source text Source.snapshot, λ e. rw e)
from_stored_iff text Source.agent = (stored_source text Source.agent, λ e. rw e)
