-- ===== src/FileMaps/Shared.antt =====
-- SpecMap with its dicts as objects: a map keeps the very dict that it is given, unless that is
-- empty, and `__setitem__` writes into it.
use sims_utils.Base.{
  ℕ, zero, suc, ◌<◌, ◌≡◌, refl, ap, ◌∙◌, String, Bool, true, false, ◌&&◌, Option, none, some, List,
  [], ◌∷◌, ◌++◌, arith, str_eq, length, length-append, ◌≤◌, get_elem?, if◌then◌else◌, ◌==◌,
  Bool-cases, inl, inr,
}
use sims_utils.Base.Dict.{insert}
use sims_utils.FileMaps.{Paths, SpecMap, spec_map, given}

-- The dicts, by their addresses
abbrev pub Heap : Type 0
Heap = List Paths

abbrev pub dict_at : ℕ → Heap → Paths
dict_at i h = elim (get_elem? h i) [ some d ↦ d | none ↦ [] ]

-- `d[key] = val`
abbrev pub write : ℕ → String → String → Heap → Heap
write i key val [] = []
write zero key val (d ∷ h) = insert str_eq key val d ∷ h
write (suc i) key val (d ∷ h) = d ∷ write i key val h

-- A SpecMap object: the addresses of `fileDict` and `dirDict`
pub record MapObject : Type 0 where
  pub files : ℕ
  pub dirs : ℕ

-- Whether a dict is true of `if d:`
abbrev pub is_filled : Paths → Bool
is_filled [] = false
is_filled (e ∷ d) = true

-- `if d: self.d = d`, `else: self.d = {}`
unfoldable pub keep_or_make : Option ℕ → Heap → ℕ × Heap
keep_or_make none h = (length h, h ++ ([] ∷ []))
keep_or_make (some i) h = if is_filled (dict_at i h) then (i, h) else (length h, h ++ ([] ∷ []))

-- `SpecMap(fileDict=..., dirDict=...)`
unfoldable pub new_map : Option ℕ → Option ℕ → Heap → MapObject × Heap
unfolding keep_or_make
new_map files dirs h =
    let made = keep_or_make files h in
    let made' = keep_or_make dirs made.1 in (record { files = made.0; dirs = made'.0 }, made'.1)

unfoldable pub set_item_of : MapObject → String → String → Heap → Heap
set_item_of m key val h = write m.files key val h

-- What a map shows
unfoldable pub shown : MapObject → Heap → SpecMap
shown m h = record { file_dict = dict_at m.files h; dir_dict = dict_at m.dirs h }

-- The dict that an argument is
unfoldable pub argument_at : Option ℕ → Heap → Option Paths
argument_at none h = none
argument_at (some i) h = some (dict_at i h)

dict_at-append : (i : ℕ) (h : Heap) → dict_at i (h ++ ([] ∷ [])) ≡ dict_at i h
dict_at-append zero [] = refl
dict_at-append (suc i) [] = refl
dict_at-append zero (d ∷ h) = refl
dict_at-append (suc i) (d ∷ h) = dict_at-append i h

dict_at-length : (h : Heap) → dict_at (length h) (h ++ ([] ∷ [])) ≡ []
dict_at-length [] = refl
dict_at-length (d ∷ h) = dict_at-length h

dict_at-write :
    (i j : ℕ) (key val : String) (h : Heap)
    → i < length h
    → dict_at j (write i key val h)
      ≡ (if i == j then insert str_eq key val (dict_at j h) else dict_at j h)
dict_at-write i j key val [] low = absurd (omega arith)
dict_at-write zero zero key val (d ∷ h) low = refl
dict_at-write zero (suc j) key val (d ∷ h) low = ground arith
dict_at-write (suc i) zero key val (d ∷ h) low = ground arith
dict_at-write (suc i) (suc j) key val (d ∷ h) low =
    ground (arith, dict_at-write i j key val h (omega arith))

length-make : (h : Heap) → length (h ++ ([] ∷ [])) ≡ suc (length h)
length-make h = omega (arith, length-append h ([] ∷ []))

-- Whether a new map gets this dict of the heap as its own
unfoldable pub takes : Option ℕ → ℕ → Heap → Bool
takes none i h = false
takes (some j) i h = is_filled (dict_at j h) && (j == i)

-- An argument that is there is a dict of the heap.
unfoldable pub IsArgument : Option ℕ → Heap → Type 0
IsArgument none h = Unit
IsArgument (some i) h = i < length h

-- What is kept or made is the dict that `given` says, in the heap, and no dict of the heap before
-- has changed.
record IsKept (arg : Option ℕ) (h : Heap) (made : ℕ × Heap) : Type 0 where
  content : dict_at made.0 made.1 ≡ given (argument_at arg h)
  low : made.0 < length made.1
  others : (i : ℕ) → dict_at i made.1 ≡ dict_at i h
  longer : length h ≤ length made.1
  same : (i : ℕ) → i < length h → (made.0 == i) ≡ takes arg i h

empty : (d : Paths) → is_filled d ≡ false → [] ≡ d
empty [] e = refl
empty (x ∷ d) e = cc e

keep_or_make-IsKept :
    (arg : Option ℕ) (h : Heap) → IsArgument arg h → IsKept arg h (keep_or_make arg h)
unfolding keep_or_make argument_at given takes IsArgument
keep_or_make-IsKept none h low = record {
  content = dict_at-length h;
  low = omega (arith, length-make h);
  others = λ i. dict_at-append i h;
  longer = omega (arith, length-make h);
  same = λ i lower. ground arith;
}
keep_or_make-IsKept (some j) h low = elim (Bool-cases (is_filled (dict_at j h))) [
  | inl e ↦ rw e (record {
    content = refl;
    low = low;
    others = λ i. refl;
    longer = omega arith;
    same = λ i lower. ground arith;
  })
  | inr e ↦ rw e (record {
    content = dict_at-length h ∙ empty (dict_at j h) e;
    low = omega (arith, length-make h);
    others = λ i. dict_at-append i h;
    longer = omega (arith, length-make h);
    same = λ i lower. ground arith;
  })
]

argument-later :
    (arg : Option ℕ) (h h' : Heap)
    → ((i : ℕ) → dict_at i h' ≡ dict_at i h)
    → given (argument_at arg h') ≡ given (argument_at arg h)
unfolding argument_at
argument-later none h h' others = refl
argument-later (some i) h h' others = ap (λ d. given (some d)) (others i)

IsArgument-later :
    (arg : Option ℕ) (h h' : Heap) → length h ≤ length h' → IsArgument arg h → IsArgument arg h'
unfolding IsArgument
IsArgument-later none h h' longer low = tt
IsArgument-later (some i) h h' longer low = omega arith

-- A new SpecMap of two dicts, each left out or an object that is there, shows what `spec_map` says of
-- their contents. When `n[key] = val` is then done on it, a dict that was there before gains the
-- entry just where it is the fileDict that the map was given and was not empty; every other dict is
-- as it was.
pub new_map-shares :
    (files dirs : Option ℕ) (h : Heap) (i : ℕ) (key val : String)
    → IsArgument files h
    → IsArgument dirs h
    → i < length h
    → let (n, h') = new_map files dirs h in
      (shown n h' ≡ spec_map (argument_at files h) (argument_at dirs h))
      × (dict_at i (set_item_of n key val h')
          ≡ (if takes files i h then insert str_eq key val (dict_at i h) else dict_at i h))
unfolding new_map set_item_of shown spec_map
new_map-shares files dirs h i key val file_low dir_low low =
    let first = keep_or_make files h in
    let second = keep_or_make dirs first.1 in
    let a = keep_or_make-IsKept files h file_low in
    let b = keep_or_make-IsKept dirs first.1 (IsArgument-later dirs h first.1 a.longer dir_low) in
    (
      cc (b.others first.0, a.content, b.content, argument-later dirs h first.1 a.others),
      rw
          (
            dict_at-write first.0 i key val second.1 (omega (arith, a.low, b.longer)),
            b.others i,
            a.others i,
            a.same i low,
          )
          refl,
    )
