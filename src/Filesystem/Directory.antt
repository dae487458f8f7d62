-- ===== src/Filesystem/Directory.antt =====
-- The inode table as a directory: a map from file names to inode numbers, which `CreateFile`
-- extends and `DeleteFile` shrinks.
use hydra_os.Common.{
  ℕ, ◌<◌, ◌≡◌, ◌≢◌, ◌∙◌, ◌⊎◌, ◌↔◌, inl, inr, refl, sym, ap, subst, Bool, true, false, not, ◌&&◌,
  none, some, List, length, set, take, arith, length-set, get_or-set_self, get_or-set_ne,
  Bool-cases,
}
use hydra_os.Filesystem.Layout.{Inode, blank, type_empty}
use hydra_os.Filesystem.Files.{names_match, find_file, named}
use hydra_os.Filesystem.Table.{at}
use hydra_os.Filesystem.Names.{IsString, names_match-copy_string, take_all}
use hydra_os.Filesystem.Lookup.{
  answers, is_empty, IsFirst, NonePass, find_file-IsFirst, find_file-NonePass, find_file-set,
}

-- An inode in use opens under one name alone.
pub record HasName (x : Inode) (s : List ℕ) : Type 0 where
  pub is_string : IsString s
  pub opens_iff : (t : List ℕ) → IsString t → (answers t x ≡ true) ↔ (t ≡ s)

-- Files have names, and no two the same.
pub record IsDirectory (xs : List Inode) : Type 0 where
  pub has_name :
      (i : ℕ) → i < length xs → is_empty (at xs i) ≡ false → (s : List ℕ) × HasName (at xs i) s
  pub distinct :
      (i j : ℕ) (t : List ℕ)
      → i < length xs
      → j < length xs
      → IsString t
      → answers t (at xs i) ≡ true
      → answers t (at xs j) ≡ true
      → i ≡ j

pub empty-answers : (t : List ℕ) (x : Inode) → is_empty x ≡ true → answers t x ≡ false
empty-answers t x e = ap (λ b. not b && names_match x.name t) e

-- What `CreateFile` writes answers to the first 31 characters of its name.
named-answers :
    (x : Inode) (s t : List ℕ)
    → length x.name ≡ 32
    → IsString s
    → IsString t
    → (answers t (named x s) ≡ true) ↔ (t ≡ take 31 s)
unfolding named
named-answers x s t e vs vt = names_match-copy_string s t x.name e vs vt

pub eq_cases : (a b : ℕ) → (a ≡ b) ⊎ (a ≢ b)
eq_cases a b = ground arith

pub true≢false : true ≡ false → ⊥
true≢false e = cc

not_answers : (t : List ℕ) (x : Inode) → (answers t x ≡ true → ⊥) → answers t x ≡ false
not_answers t x h = elim (Bool-cases (answers t x)) [ inl e ↦ absurd (h e) | inr e ↦ e ]

module _ (xs : List Inode) (i : ℕ) (slot : IsFirst is_empty xs i)
    (len : length (at xs i).name ≡ 32) where
  abbrev pub created : List ℕ → List Inode
  created s = set xs i (named (at xs i) s)

  -- A name of at most 31 characters that no file has opens the new file.
  pub find_file-created :
      (s : List ℕ)
      → IsString s
      → length s < 32
      → NonePass (answers s) xs
      → find_file s 0 (created s) ≡ some i
  find_file-created s vs short fresh = find_file-IsFirst s (created s) i (record {
    inside = omega (arith, slot.inside, length-set xs i (named (at xs i) s));
    passes =
        ap (answers s) (get_or-set_self xs i _ blank slot.inside)
        ∙ (named-answers (at xs i) s s len vs vs).1 (sym (take_all 31 s (omega arith)));
    before = λ j lt.
        ap (answers s) (get_or-set_ne xs i j _ blank (λ e. absurd (omega arith)))
        ∙ fresh j (omega (arith, slot.inside));
  })

  -- Every other name opens what it opened before.
  pub find_file-created_other :
      (s t : List ℕ)
      → IsString s
      → IsString t
      → t ≢ take 31 s
      → find_file t 0 (created s) ≡ find_file t 0 xs
  find_file-created_other s t vs vt other = find_file-set t i (named (at xs i) s) xs (
      not_answers t (named (at xs i) s) (λ e. other ((named-answers (at xs i) s t len vs vt).0 e))
      ∙ sym (empty-answers t (at xs i) slot.passes))

  -- The table stays a directory, if the name fits and is new.
  pub created-IsDirectory :
      (s : List ℕ)
      → IsString s
      → length s < 32
      → NonePass (answers s) xs
      → IsDirectory xs
      → IsDirectory (created s)
  created-IsDirectory s vs short fresh d = record {
    has_name = λ j lt used. elim (eq_cases j i) [
      | inl e ↦ (s, subst (λ y. HasName y s) (sym (here j e)) own_name)
      | inr ne ↦
          subst (λ y. (u : List ℕ) × HasName y u) (sym (there j ne))
            (d.has_name j (omega (arith, lt, length-set xs i (named (at xs i) s)))
              (sym (ap is_empty (there j ne)) ∙ used))
    ];
    distinct = λ a b t la lb vt ha hb. elim (eq_cases a i) [
      | inl ea ↦ elim (eq_cases b i) [
        | inl eb ↦ ea ∙ sym eb
        | inr nb ↦ absurd (clash b t (inside b lb) vt nb (ap (answers t) (sym (here a ea)) ∙ ha) hb)
      ]
      | inr na ↦ elim (eq_cases b i) [
        | inl eb ↦ absurd (clash a t (inside a la) vt na (ap (answers t) (sym (here b eb)) ∙ hb) ha)
        | inr nb ↦
            d.distinct a b t (inside a la) (inside b lb) vt (ap (answers t) (sym (there a na)) ∙ ha)
              (ap (answers t) (sym (there b nb)) ∙ hb)
      ]
    ];
  }
    where
      new : Inode
      new = named (at xs i) s

      inside : (j : ℕ) → j < length (set xs i new) → j < length xs
      inside j lt = omega (arith, lt, length-set xs i new)

      here : (j : ℕ) → j ≡ i → at (set xs i new) j ≡ new
      here j e = ap (at (set xs i new)) e ∙ get_or-set_self xs i new blank slot.inside

      there : (j : ℕ) → j ≢ i → at (set xs i new) j ≡ at xs j
      there j ne = get_or-set_ne xs i j new blank ne

      own_name : HasName new s
      own_name = record {
        is_string = vs;
        opens_iff = λ t vt.
            subst (λ u. (answers t new ≡ true) ↔ (t ≡ u)) (take_all 31 s (omega arith))
              (named-answers (at xs i) s t len vs vt);
      }

      clash :
          (j : ℕ) (t : List ℕ)
          → j < length xs
          → IsString t
          → j ≢ i
          → answers t new ≡ true
          → answers t (at (set xs i new) j) ≡ true
          → ⊥
      clash j t lt vt ne mine its =
          let same = (own_name.opens_iff t vt).0 mine in
          true≢false (
            sym its ∙ ap (answers t) (there j ne) ∙ ap (λ u. answers u (at xs j)) same ∙ fresh j lt)

-- What `DeleteFile` leaves of the inode that it removes.
module _ (xs : List Inode) (d : IsDirectory xs) (s : List ℕ) (i : ℕ) (vs : IsString s)
    (found : IsFirst (answers s) xs i) where
  abbrev pub removed : List Inode
  removed = set xs i (record (at xs i) { type = type_empty; size = 0 })

  removed_inside : (j : ℕ) → j < length removed → j < length xs
  removed_inside j lt =
      omega (arith, lt, length-set xs i (record (at xs i) { type = type_empty; size = 0 }))

  removed_here : (t : List ℕ) → answers t (at removed i) ≡ false
  removed_here t = ap (answers t) (get_or-set_self xs i _ blank found.inside)

  removed_there : (j : ℕ) → j ≢ i → at removed j ≡ at xs j
  removed_there j ne = get_or-set_ne xs i j _ blank ne

  -- The removed name opens nothing.
  pub find_file-removed : find_file s 0 removed ≡ none
  find_file-removed = find_file-NonePass s removed λ j lt. elim (eq_cases j i) [
    | inl e ↦ ap (λ n. answers s (at removed n)) e ∙ removed_here s
    | inr ne ↦
        ap (answers s) (removed_there j ne)
        ∙ not_answers s (at xs j)
            (λ e. ne (d.distinct j i s (removed_inside j lt) found.inside vs e found.passes))
  ]

  in_use : is_empty (at xs i) ≡ false
  in_use = used (is_empty (at xs i)) (names_match (at xs i).name s) found.passes
    where
      used : (a b : Bool) → (not a && b) ≡ true → a ≡ false
      used true b e = sym e
      used false b e = refl

  -- Every other name opens what it opened before.
  pub find_file-removed_other :
      (t : List ℕ) → IsString t → t ≢ s → find_file t 0 removed ≡ find_file t 0 xs
  find_file-removed_other t vt other =
      find_file-set t i (record (at xs i) { type = type_empty; size = 0 }) xs
        (sym (
          not_answers t (at xs i) λ e.
            let (u, name) = d.has_name i found.inside in_use in
            other ((name.opens_iff t vt).0 e ∙ sym ((name.opens_iff s vs).0 found.passes))))

  -- The table stays a directory.
  pub removed-IsDirectory : IsDirectory removed
  removed-IsDirectory = record {
    has_name = λ j lt used. elim (eq_cases j i) [
      | inl e ↦ absurd (
          true≢false (
            sym (ap is_empty (ap (at removed) e ∙ get_or-set_self xs i _ blank found.inside))
            ∙ used))
      | inr ne ↦
          subst (λ y. (u : List ℕ) × HasName y u) (sym (removed_there j ne))
            (d.has_name j (removed_inside j lt) (sym (ap is_empty (removed_there j ne)) ∙ used))
    ];
    distinct = λ a b t la lb vt ha hb.
        d.distinct a b t (removed_inside a la) (removed_inside b lb) vt (kept a t ha) (kept b t hb);
  }
    where
      kept : (a : ℕ) (t : List ℕ) → answers t (at removed a) ≡ true → answers t (at xs a) ≡ true
      kept a t h = elim (eq_cases a i) [
        | inl e ↦
            absurd (true≢false (sym h ∙ ap (λ n. answers t (at removed n)) e ∙ removed_here t))
        | inr ne ↦ ap (answers t) (sym (removed_there a ne)) ∙ h
      ]
