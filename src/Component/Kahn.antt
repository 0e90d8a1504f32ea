-- ===== src/Component/Kahn.antt =====
-- The invariant of the loop of `detectCycles` (internal/core/component.go). `done` is the list of
-- the visited nodes, which the code only counts.
use zhi.Common.{
  ℕ, ◌+◌, ◌-◌, Text, true, false, List, [], ◌∷◌, ◌++◌, ◌≡◌, refl, arith, Map, insert, length,
  if◌then◌else◌, eq_iff, Bool-cases, inl, inr, contains, contains-append, Distinct, Distinct-snoc,
  Within, All, append_assoc, nat_eq,
}
use zhi.Component.Manager.{ComponentDef}
use zhi.Component.Cycles.{degree, release}
use zhi.Component.Counting.{released}
use zhi.Component.Graph.{count, names, degree-insert}

-- How many entries of a list of dependencies are not visited yet.
unfoldable pub pending : List Text → List Text → ℕ
pending done [] = 0
pending done (d ∷ deps) = (if contains done d then 0 else 1) + pending done deps

pub pending-nil : (deps : List Text) → pending [] deps ≡ length deps
unfolding pending contains
pending-nil [] = refl
pending-nil (d ∷ deps) = omega (arith, pending-nil deps)

pub pending-snoc :
    (done deps : List Text) (x : Text)
    → contains done x ≡ false
    → pending (done ++ x ∷ []) deps + count x deps ≡ pending done deps
unfolding pending count contains
pending-snoc done [] x fresh = omega arith
pending-snoc done (d ∷ deps) x fresh =
    ground (
      arith,
      pending-snoc done deps x fresh,
      contains-append done (x ∷ []) d,
      eq_iff x d,
      eq_iff d x,
    )

pub pending-zero :
    (done deps : List Text) → pending done deps ≡ 0 → All (λ d. contains done d ≡ true) deps
unfolding pending
pending-zero done [] h = tt
pending-zero done (d ∷ deps) h = (ground arith, pending-zero done deps (ground arith))

pub All→pending-zero :
    (done deps : List Text) → All (λ d. contains done d ≡ true) deps → pending done deps ≡ 0
unfolding pending
All→pending-zero done [] h = refl
All→pending-zero done (d ∷ deps) h = ground (arith, All→pending-zero done deps h.1)

pub degree-release :
    (l : List Text) (m : Map ℕ) (queue : List Text) (n : Text)
    → degree (release l m queue).0 n ≡ degree m n - count n l
unfolding release count
degree-release [] m queue n = omega arith
degree-release (name ∷ l) m queue n = ground (
  arith,
  degree-release l (insert name (degree m name - 1) m) (released name m queue) n,
  degree-insert name n (degree m name - 1) m,
  eq_iff name n,
)

module _ (ds : List ComponentDef) where
  -- The nodes that were put on the queue so far are the names of in-degree 0, each once.
  pub record Settled (all : List Text) (m : Map ℕ) : Type 0 where
    pub distinct : Distinct all
    pub named : Within all (names ds)
    pub zeros : (n : Text) → contains (names ds) n ≡ true → contains all n ≡ nat_eq (degree m n) 0

  Settled-last :
      (all : List Text) (m : Map ℕ) (name : Text)
      → contains (names ds) name ≡ true
      → degree m name ≡ 1
      → Settled all m
      → Settled (all ++ name ∷ []) (insert name (degree m name - 1) m)
  unfolding contains
  Settled-last all m name known last s = record {
    distinct = Distinct-snoc all name s.distinct (ground (arith, s.zeros name known));
    named = λ x h. ground (arith, contains-append all (name ∷ []) x, s.named x, eq_iff name x);
    zeros = λ n h. ground (
      arith,
      contains-append all (name ∷ []) n,
      s.zeros n h,
      degree-insert name n (degree m name - 1) m,
      eq_iff name n,
    );
  }

  Settled-more :
      (all : List Text) (m : Map ℕ) (name : Text)
      → nat_eq (degree m name) 1 ≡ false
      → Settled all m
      → Settled all (insert name (degree m name - 1) m)
  Settled-more all m name more s = record {
    distinct = s.distinct;
    named = s.named;
    zeros = λ n h.
        ground (arith, s.zeros n h, degree-insert name n (degree m name - 1) m, eq_iff name n);
  }

  Settled-released :
      (done queue : List Text) (m : Map ℕ) (name : Text)
      → contains (names ds) name ≡ true
      → Settled (done ++ queue) m
      → Settled (done ++ released name m queue) (insert name (degree m name - 1) m)
  Settled-released done queue m name known s = elim (Bool-cases (nat_eq (degree m name) 1)) [
    | inl last ↦
        rw (last, ← append_assoc done queue (name ∷ []))
          (Settled-last (done ++ queue) m name known (ground arith) s)
    | inr more ↦ rw more (Settled-more (done ++ queue) m name more s)
  ]

  pub Settled-release :
      (l done queue : List Text) (m : Map ℕ)
      → Within l (names ds)
      → Settled (done ++ queue) m
      → Settled (done ++ (release l m queue).1) (release l m queue).0
  unfolding release
  Settled-release [] done queue m w s = s
  Settled-release (name ∷ l) done queue m w s =
      Settled-release l done (released name m queue) (insert name (degree m name - 1) m)
        (λ x h. w x (unfold contains in ground arith))
        (Settled-released done queue m name
          (w name (unfold contains in ground (arith, eq_iff name name))) s)
