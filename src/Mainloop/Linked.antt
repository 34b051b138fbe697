-- ===== src/Mainloop/Linked.antt =====
-- The linked lists of src/mainloop.c: each of the three is a list of nodes, and each node has an
-- address.
use mathlib.Core.List.{append_assoc}
use oddjob_gpupdate.Prelude.{
  ℕ, zero, suc, ◌≤◌, ◌≡◌, ◌≢◌, refl, sym, ◌∙◌, ap, inl, inr, arith, Bool, true, false, List, [],
  ◌∷◌, ◌++◌, Option, none, some, ◌==◌, ne→not-==, if◌then◌else◌, Bool-cases, Run, ok, fault,
  waiting, ◌>>=◌, or_fault, length, Returns, Returns-bind,
}

module _ {A : Type 0} where
  -- Whether the search through the list ends at an item.
  unfoldable pub has : (A → Bool) → List A → Bool
  has same [] = false
  has same (x ∷ xs) = if same x then true else has same xs

  -- To unlink and free the first such node.
  unfoldable pub unlink : (A → Bool) → List A → List A
  unlink same [] = []
  unlink same (x ∷ xs) = if same x then xs else x ∷ unlink same xs

  -- An item with a node from `malloc`, in front, unless there is such an item.
  unfoldable pub link : (A → Bool) → Option A → List A → List A × Bool
  unfolding has
  link same new xs =
      if has same xs then (xs, true) else elim new [ none ↦ (xs, false) | some x ↦ (x ∷ xs, true) ]

  module _ (node : A → ℕ) where
    -- The first node of a list, or NULL.
    abbrev pub first : List A → Option ℕ
    first [] = none
    first (x ∷ _) = some (node x)

    -- What a pointer leads to, with its `next`: none where the node has been freed.
    unfoldable pub at : ℕ → List A → Option (A × Option ℕ)
    at p [] = none
    at p (x ∷ xs) = if node x == p then some (x, first xs) else at p xs

    -- No node of the list is at this address.
    abbrev pub IsFree : ℕ → List A → Type 0
    IsFree p [] = Unit
    IsFree p (x ∷ xs) = (node x ≢ p) × IsFree p xs

    at-middle :
        (front rest : List A) (x : A)
        → IsFree (node x) front
        → at (node x) (front ++ x ∷ rest) ≡ some (x, first rest)
    unfolding at
    at-middle [] rest x h = let e : (node x == node x) ≡ true = ground arith in rw e refl
    at-middle (y ∷ front) rest x h =
        rw (ne→not-== (node y) (node x) h.0) (at-middle front rest x h.1)

    -- No node of the one list is a node of the other.
    abbrev pub AreApart : List A → List A → Type 0
    AreApart front [] = Unit
    AreApart front (x ∷ rest) = IsFree (node x) front × AreApart front rest

    -- No two items have one node.
    abbrev pub AreDistinct : List A → Type 0
    AreDistinct [] = Unit
    AreDistinct (x ∷ xs) = IsFree (node x) xs × AreDistinct xs

    -- The items `rest` are in the list, behind others.
    pub record Stands (rest xs : List A) : Type 0 where
      pub front : List A
      pub splits : xs ≡ front ++ rest
      pub apart : AreApart front rest
      pub distinct : AreDistinct rest

    IsFree-snoc :
        (p : ℕ) (front : List A) (x : A) → IsFree p front → node x ≢ p → IsFree p (front ++ x ∷ [])
    IsFree-snoc p [] x h e = (e, tt)
    IsFree-snoc p (y ∷ front) x h e = (h.0, IsFree-snoc p front x h.1 e)

    AreApart-snoc :
        (front rest : List A) (x : A)
        → AreApart front rest
        → IsFree (node x) rest
        → AreApart (front ++ x ∷ []) rest
    AreApart-snoc front [] x h k = tt
    AreApart-snoc front (y ∷ rest) x h k =
        (IsFree-snoc (node y) front x h.0 (λ e. k.0 (sym e)), AreApart-snoc front rest x h.1 k.1)

    AreApart-nil : (rest : List A) → AreApart [] rest
    AreApart-nil [] = tt
    AreApart-nil (x ∷ rest) = (tt, AreApart-nil rest)

    -- The whole list stands in itself, and an item can be passed.
    pub Stands-self : (xs : List A) → AreDistinct xs → Stands xs xs
    Stands-self xs d = record { front = []; splits = refl; apart = AreApart-nil xs; distinct = d }

    pub Stands-next : (x : A) (rest xs : List A) → Stands (x ∷ rest) xs → Stands rest xs
    Stands-next x rest xs st = record {
      front = st.front ++ x ∷ [];
      splits = st.splits ∙ sym (append_assoc st.front (x ∷ []) rest);
      apart = AreApart-snoc st.front rest x st.apart.1 st.distinct.0;
      distinct = st.distinct.1;
    }

    pub at-Stands :
        (x : A) (rest xs : List A) → Stands (x ∷ rest) xs → at (node x) xs ≡ some (x, first rest)
    at-Stands x rest xs st = ap (at (node x)) st.splits ∙ at-middle st.front rest x st.apart.0

    AreApart-tail : (y : A) (front rest : List A) → AreApart (y ∷ front) rest → AreApart front rest
    AreApart-tail y front [] h = tt
    AreApart-tail y front (x ∷ rest) h = (h.0.1, AreApart-tail y front rest h.1)

    AreApart-cons :
        (y : A) (front front' rest : List A)
        → AreApart (y ∷ front) rest
        → AreApart front' rest
        → AreApart (y ∷ front') rest
    AreApart-cons y front front' [] h k = tt
    AreApart-cons y front front' (x ∷ rest) h k =
        ((h.0.0, k.0), AreApart-cons y front front' rest h.1 k.1)

    unlink-front :
        (same : A → Bool) (x : A) (front rest : List A)
        → same x ≡ true
        → IsFree (node x) rest
        → AreApart front rest
        → (front' : List A) × (unlink same (front ++ x ∷ rest) ≡ front' ++ rest)
          × AreApart front' rest
    unfolding unlink
    unlink-front same x [] rest t f h = ([], rw t refl, h)
    unlink-front same x (y ∷ front) rest t f h = elim (Bool-cases (same y)) [
      | inl u ↦ (
        front ++ x ∷ [],
        rw u (sym (append_assoc front (x ∷ []) rest)),
        AreApart-snoc front rest x (AreApart-tail y front rest h) f,
      )
      | inr u ↦
          let (front', e, k) = unlink-front same x front rest t f (AreApart-tail y front rest h) in
          (y ∷ front', rw u (ap (◌∷◌ y) e), AreApart-cons y front front' rest h k)
    ]

    -- To unlink the first item of a kind, with one of that kind here, leaves what is behind.
    pub unlink-Stands :
        (same : A → Bool) (x : A) (rest xs : List A)
        → same x ≡ true
        → Stands (x ∷ rest) xs
        → Stands rest (unlink same xs)
    unlink-Stands same x rest xs t st =
        let (front', e, k) = unlink-front same x st.front rest t st.distinct.0 st.apart.1 in
        record {
          front = front';
          splits = ap (unlink same) st.splits ∙ e;
          apart = k;
          distinct = st.distinct.1;
        }

  -- The loops over such a list: `next` is read in front of the body, and followed behind it.
  module _ {S : Type 0} (node : A → ℕ) (items : S → List A) (visit : A → S → Run S) where
    unfoldable pub walk : ℕ → Option ℕ → S → Run S
    walk fuel none s = ok s
    walk zero (some p) s = waiting
    walk (suc fuel) (some p) s = do
      found ← or_fault (at node p (items s))
      s' ← visit found.0 s
      walk fuel found.1 s'

    -- The rule for such a loop: `P` holds in front of each item, where the items from there on stand
    -- in the list.
    pub walk-Returns :
        (P : List A → S → Type 0)
        → ((xs : List A) (s : S) → P xs s → Stands node xs (items s))
        → ((x : A) (xs : List A) (s : S) → P (x ∷ xs) s → Returns (P xs) (visit x s))
        → (fuel : ℕ) (xs : List A) (s : S) → length xs ≤ fuel
        → P xs s
        → Returns (P []) (walk fuel (first node xs) s)
    unfolding walk
    walk-Returns P stands keeps fuel [] s n h = h
    walk-Returns P stands keeps zero (x ∷ xs) s n h = absurd (omega arith)
    walk-Returns P stands keeps (suc fuel) (x ∷ xs) s n h =
        let e : at node (node x) (items s) ≡ some (x, first node xs) =
          at-Stands node x xs (items s) (stands (x ∷ xs) s h) in
        rw e (
          Returns-bind (P xs) (P []) (visit x s) (walk fuel (first node xs)) (keeps x xs s h)
            (λ s' k. walk-Returns P stands keeps fuel xs s' (omega arith) k))

    -- A body that frees the next node breaks the loop.
    pub walk-fault :
        (fuel : ℕ) (x y : A) (rest : List A) (s s' : S)
        → items s ≡ x ∷ y ∷ rest
        → visit x s ≡ ok s'
        → at node (node y) (items s') ≡ none
        → walk (suc (suc fuel)) (some (node x)) s ≡ fault
    unfolding walk
    walk-fault fuel x y rest s s' e v f =
        let here : at node (node x) (items s) ≡ some (x, some (node y)) =
          ap (at node (node x)) e ∙ at-middle node [] (y ∷ rest) x tt in
        rw (here, v, f)
