-- ===== src/Steer/Evict.antt =====
-- `add` in closed form: which references its `while` loop evicts, and what becomes of them.
use luna_agent.Prelude.{
  ℕ, suc, ◌≤◌, ◌≡◌, refl, true, not, ◌&&◌, List, [], ◌∷◌, arith, ◌++◌, ◌==◌, String, String_eq,
  ℕ_eq, ==_iff, elem, Distinct, length, if◌then◌else◌,
}
use luna_agent.Prelude.Dict.{get-put}
use luna_agent.Steer.{
  SteerManager, Objects, write, expire, evict, queue, add, new_signal, clean_key,
}

module _ (limit : ℕ) where
  pub evict-length :
      (q : List ℕ) (o : Objects) → 1 ≤ limit → suc (length (evict limit q o).0) ≤ limit
  unfolding evict
  evict-length [] o h = omega arith
  evict-length (x ∷ q) o h = ground (arith, evict-length q (write o x (expire (o x))) h)

  pub evict_subset :
      (q : List ℕ) (o : Objects) (r : ℕ) → elem r (evict limit q o).0 ≡ true → elem r q ≡ true
  unfolding evict
  evict_subset [] o r h = h
  evict_subset (x ∷ q) o r h = ground (arith, evict_subset q (write o x (expire (o x))) r)

  pub evict-Distinct : (q : List ℕ) (o : Objects) → Distinct q → Distinct (evict limit q o).0
  unfolding evict
  evict-Distinct [] o d = tt
  evict-Distinct (x ∷ q) o d = ground (arith, evict-Distinct q (write o x (expire (o x))) d.1)

  -- The evicted references are the ones that expire.
  pub evict_objects :
      (q : List ℕ) (o : Objects) (r : ℕ)
      → Distinct q
      → (evict limit q o).1 r
        ≡ (if elem r q && not (elem r (evict limit q o).0) then expire (o r) else o r)
  unfolding evict
  evict_objects [] o r d = refl
  evict_objects (x ∷ q) o r d = ground (
    arith,
    ==_iff x r,
    evict_objects q (write o x (expire (o x))) r d.1,
    evict_subset q (write o x (expire (o x))) r,
  )

module _ (m : SteerManager) (session_key : String) (source : ℕ) (text id : String) (now : ℕ) where
  abbrev session : String
  session = clean_key session_key

  abbrev pub kept : List ℕ
  kept = (evict m.max_pending_per_session (queue m (clean_key session_key)) m.objects).0

  pub queue-add :
      (s : String)
      → queue (add m session_key source text id now).0 s
        ≡ (if clean_key session_key == s then kept ++ m.made ∷ [] else queue m s)
  unfolding add queue
  queue-add s = ground (arith, get-put m.pendings session (kept ++ m.made ∷ []) s, ==_iff session s)

  pub add_objects :
      Distinct (queue m (clean_key session_key))
      → (r : ℕ)
      → (add m session_key source text id now).0.objects r ≡ (
          if m.made == r
          then new_signal m (clean_key session_key) source text id now
          else if elem r (queue m (clean_key session_key)) && not (elem r kept)
          then expire (m.objects r)
          else m.objects r)
  unfolding add
  add_objects d r =
      ground (arith, evict_objects m.max_pending_per_session (queue m session) m.objects r d)
