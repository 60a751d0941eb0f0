-- ===== src/Steer/Scan.antt =====
-- The sweep of a queue in closed form: which references it selects, which it leaves, and what it
-- does to the objects, in terms of the objects as they were before the loop.
use luna_agent.Prelude.{
  ℕ, suc, ◌≡◌, refl, sym, true, false, List, [], ◌∷◌, ◌++◌, arith, ℕ_eq, ==_iff, elem, Distinct,
  All, length, length-append, fold, if◌then◌else◌,
}
use mathlib.Core.List.{append-nil, append_assoc}
use luna_agent.Steer.{
  Objects, SteerSignal, Verdict, forget, select, retain, Sweep, write, sweep_step, sweep,
}

module _ (verdict : ℕ → SteerSignal → Verdict) (o : Objects) where
  abbrev pub chosen : ℕ → List ℕ → List ℕ
  chosen k [] = []
  chosen k (r ∷ q) = elim (verdict k (o r)) [
    | forget ↦ chosen k q
    | select ↦ r ∷ chosen (suc k) q
    | retain ↦ chosen k q
  ]

  abbrev pub left : ℕ → List ℕ → List ℕ
  left k [] = []
  left k (r ∷ q) = elim (verdict k (o r)) [
    | forget ↦ left k q
    | select ↦ left (suc k) q
    | retain ↦ r ∷ left k q
  ]

  pub chosen-subset : (r k : ℕ) (q : List ℕ) → elem r (chosen k q) ≡ true → elem r q ≡ true
  chosen-subset r k [] h = h
  chosen-subset r k (x ∷ q) h = ground (arith, chosen-subset r k q, chosen-subset r (suc k) q)

  pub left-subset : (r k : ℕ) (q : List ℕ) → elem r (left k q) ≡ true → elem r q ≡ true
  left-subset r k [] h = h
  left-subset r k (x ∷ q) h = ground (arith, left-subset r k q, left-subset r (suc k) q)

Agrees : Objects → Objects → List ℕ → Type 0
Agrees now before q = All (λ r. now r ≡ before r) q

-- A write at a reference that is not in the queue is not seen there.
Agrees-write :
    (now before : Objects) (x : ℕ) (signal : SteerSignal) (q : List ℕ)
    → elem x q ≡ false
    → Agrees now before q
    → Agrees (write now x signal) before q
unfolding Agrees
Agrees-write now before x signal [] h a = tt
Agrees-write now before x signal (y ∷ q) h a =
    (ground (arith, ==_iff y x), Agrees-write now before x signal q (ground arith) a.1)

module _ (verdict : ℕ → SteerSignal → Verdict) (mark : SteerSignal → SteerSignal)
    (o : Objects) where
  -- What a sweep of `q` from `s`, with `k` references selected before, comes to.
  record Swept (k : ℕ) (s e : Sweep) (q : List ℕ) : Type 0 where
    selected_is : e.selected ≡ s.selected ++ chosen verdict o k q
    remaining_is : e.remaining ≡ s.remaining ++ left verdict o k q
    objects_are :
        (r : ℕ)
        → e.objects r ≡ (if elem r (chosen verdict o k q) then mark (s.objects r) else s.objects r)

  abbrev select_one : Sweep → ℕ → Sweep
  select_one s r = record s {
    objects = write s.objects r (mark (s.objects r));
    selected = s.selected ++ r ∷ [];
  }

  abbrev retain_one : Sweep → ℕ → Sweep
  retain_one s r = record s { remaining = s.remaining ++ r ∷ [] }

  Swept-forget :
      (k x : ℕ) (q : List ℕ) (s e : Sweep)
      → verdict k (o x) ≡ forget
      → Swept k s e q
      → Swept k s e (x ∷ q)
  Swept-forget k x q s e v w = record {
    selected_is = ground arith;
    remaining_is = ground arith;
    objects_are = λ r. ground (arith, w.objects_are r);
  }

  Swept-retain :
      (k x : ℕ) (q : List ℕ) (s e : Sweep)
      → verdict k (o x) ≡ retain
      → Swept k (retain_one s x) e q
      → Swept k s e (x ∷ q)
  Swept-retain k x q s e v w = record {
    selected_is = ground arith;
    remaining_is = ground (arith, append_assoc s.remaining (x ∷ []) (left verdict o k q));
    objects_are = λ r. ground (arith, w.objects_are r);
  }

  Swept-select :
      (k x : ℕ) (q : List ℕ) (s e : Sweep)
      → verdict k (o x) ≡ select
      → elem x q ≡ false
      → Swept (suc k) (select_one s x) e q
      → Swept k s e (x ∷ q)
  Swept-select k x q s e v new w = record {
    selected_is = ground (arith, append_assoc s.selected (x ∷ []) (chosen verdict o (suc k) q));
    remaining_is = ground arith;
    objects_are =
        λ r. ground (arith, w.objects_are r, ==_iff x r, chosen-subset verdict o r (suc k) q);
  }

  -- One round of the loop, by its verdict.
  fold-Swept_cons :
      (x : ℕ) (q : List ℕ) (k : ℕ) (s : Sweep) (v : Verdict)
      → ((j : ℕ) (t : Sweep)
          → length t.selected ≡ j
          → Agrees t.objects o q
          → Swept j t (fold (sweep_step verdict mark) t q) q)
      → length s.selected ≡ k
      → elem x q ≡ false
      → verdict (length s.selected) (s.objects x) ≡ v
      → Agrees s.objects o q
      → verdict k (o x) ≡ v
      → Swept k s (fold (sweep_step verdict mark) (sweep_step verdict mark s x) q) (x ∷ q)
  unfolding sweep_step
  fold-Swept_cons x q k s forget ih lk new tested a e =
      Swept-forget k x q s _ e (rw (tested, sweep_step) (ih k s lk a))
  fold-Swept_cons x q k s select ih lk new tested a e = Swept-select k x q s _ e new (
      rw (tested, sweep_step)
        (ih (suc k) (select_one s x) (omega (arith, length-append s.selected (x ∷ [])))
          (Agrees-write s.objects o x (mark (s.objects x)) q new a)))
  fold-Swept_cons x q k s retain ih lk new tested a e =
      Swept-retain k x q s _ e (rw (tested, sweep_step) (ih k (retain_one s x) lk a))

  fold-Swept :
      (q : List ℕ) (k : ℕ) (s : Sweep)
      → length s.selected ≡ k
      → Distinct q
      → Agrees s.objects o q
      → Swept k s (fold (sweep_step verdict mark) s q) q
  unfolding sweep_step Agrees
  fold-Swept [] k s lk d a = record {
    selected_is = sym (append-nil s.selected);
    remaining_is = sym (append-nil s.remaining);
    objects_are = λ r. refl;
  }
  fold-Swept (x ∷ q) k s lk d a =
      fold-Swept_cons x q k s (verdict k (o x)) (λ j t lt at. fold-Swept q j t lt d.1 at) lk d.0
        (rw (lk, a.0)) a.1 refl

module _ (verdict : ℕ → SteerSignal → Verdict) (mark : SteerSignal → SteerSignal) (o : Objects)
    (q : List ℕ) (distinct : Distinct q) where
  Agrees-self : (xs : List ℕ) → Agrees o o xs
  unfolding Agrees
  Agrees-self [] = tt
  Agrees-self (x ∷ xs) = (refl, Agrees-self xs)

  abbrev start : Sweep
  start = record { objects = o; selected = []; remaining = [] }

  swept : Swept verdict mark o 0 start (sweep verdict mark o q) q
  unfolding sweep
  swept = fold-Swept verdict mark o q 0 start refl distinct (Agrees-self q)

  -- The sweep of a queue without repetition.
  pub sweep_selected : (sweep verdict mark o q).selected ≡ chosen verdict o 0 q
  sweep_selected = swept.selected_is

  pub sweep_remaining : (sweep verdict mark o q).remaining ≡ left verdict o 0 q
  sweep_remaining = swept.remaining_is

  pub sweep_objects :
      (r : ℕ)
      → (sweep verdict mark o q).objects r
        ≡ (if elem r (chosen verdict o 0 q) then mark (o r) else o r)
  sweep_objects = swept.objects_are
