-- ===== src/Lock/Stale.antt =====
-- Two processes that find the same dead owner in the lock file of lib/lock.js.
use open_vibe_host.Base.{
  ℕ, Bool, true, false, none, some, if◌then◌else◌, nat_beq, nat_beq_iff, ◌≡◌, ◌≢◌, refl, sym, inl,
  inr, Bool-cases, beq_refl, nat_eq,
}
use open_vibe_host.Lock.Race.{
  refused, starting, reading, checking, removing, retrying, holding, System, move, Step, Reaches,
  here, then_step, Always, names,
}

module _ (alive : ℕ → Bool) (p q d : ℕ) (differ : nat_beq p q ≡ false)
    (differ' : nat_beq q p ≡ false) (p_live : alive p ≡ true) (q_live : alive q ≡ true)
    (d_dead : alive d ≡ false) where
  abbrev found : System
  found = record { file = some (names d); points = λ _. starting }

  abbrev after_1 : System
  after_1 = record { file = some (names d); points = move p reading found.points }

  abbrev after_2 : System
  after_2 = record { file = some (names d); points = move p (checking d) after_1.points }

  abbrev after_3 : System
  after_3 = record {
    file = some (names d);
    points = move p (if alive d then refused else removing) after_2.points;
  }

  abbrev after_4 : System
  after_4 = record { file = some (names d); points = move q reading after_3.points }

  abbrev after_5 : System
  after_5 = record { file = some (names d); points = move q (checking d) after_4.points }

  abbrev after_6 : System
  after_6 = record {
    file = some (names d);
    points = move q (if alive d then refused else removing) after_5.points;
  }

  abbrev after_7 : System
  after_7 = record { file = none; points = move p retrying after_6.points }

  abbrev after_8 : System
  after_8 = record { file = some (names p); points = move p holding after_7.points }

  abbrev after_9 : System
  after_9 = record { file = none; points = move q retrying after_8.points }

  abbrev after_10 : System
  after_10 = record { file = some (names q); points = move q holding after_9.points }

  p_is : nat_beq p p ≡ true
  p_is = beq_refl p

  q_is : nat_beq q q ≡ true
  q_is = beq_refl q

  reached : Reaches alive Always found after_10
  reached =
      let r1 = then_step found after_1 here (Step.meets p (names d) found.points p_live refl) in
      let r2 =
        then_step after_1 after_2 r1
          (Step.reads p d after_1.points p_live (simp (p_is, q_is, differ, differ', d_dead))) in
      let r3 =
        then_step after_2 after_3 r2
          (Step.checks p d after_2 p_live (simp (p_is, q_is, differ, differ', d_dead))) in
      let r4 = then_step after_3 after_4 r3 (
        Step.meets q (names d) after_3.points q_live
          (simp (p_is, q_is, differ, differ', d_dead))) in
      let r5 =
        then_step after_4 after_5 r4
          (Step.reads q d after_4.points q_live (simp (p_is, q_is, differ, differ', d_dead))) in
      let r6 =
        then_step after_5 after_6 r5
          (Step.checks q d after_5 q_live (simp (p_is, q_is, differ, differ', d_dead))) in
      let r7 =
        then_step after_6 after_7 r6
          (Step.removes p after_6 p_live (simp (p_is, q_is, differ, differ', d_dead))) in
      let r8 =
        then_step after_7 after_8 r7
          (Step.recreates p after_7.points p_live (simp (p_is, q_is, differ, differ', d_dead))) in
      let r9 =
        then_step after_8 after_9 r8
          (Step.removes q after_8 q_live (simp (p_is, q_is, differ, differ', d_dead))) in
      let r10 =
        then_step after_9 after_10 r9
          (Step.recreates q after_9.points q_live (simp (p_is, q_is, differ, differ', d_dead))) in
      r10

  p_holds : after_10.points p ≡ holding
  p_holds = simp (p_is, q_is, differ, differ', d_dead)

  q_holds : after_10.points q ≡ holding
  q_holds = simp (p_is, q_is, differ, differ', d_dead)

pub distinct : (p q : ℕ) → p ≢ q → nat_beq p q ≡ false
distinct p q h = elim (Bool-cases (nat_beq p q)) [
  | inl same ↦ absurd (h ((nat_beq_iff p q).0 same))
  | inr differs ↦ differs
]

-- As the code removes the file, any two living processes that meet the file of a dead owner may come
-- to hold the lock at once.
pub Reaches-both :
    (alive : ℕ → Bool) (p q d : ℕ)
    → p ≢ q
    → alive p ≡ true
    → alive q ≡ true
    → alive d ≡ false
    → (t : System) × Reaches alive Always
        (record { file = some (names d); points = λ _. starting })
        t
      × (t.points p ≡ holding)
      × (t.points q ≡ holding)
Reaches-both alive p q d n p_live q_live d_dead =
    let pq = distinct p q n in
    let qp = distinct q p (λ e. n (sym e)) in
    (
      after_10 alive p q d pq qp p_live q_live d_dead,
      reached alive p q d pq qp p_live q_live d_dead,
      p_holds alive p q d pq qp p_live q_live d_dead,
      q_holds alive p q d pq qp p_live q_live d_dead,
    )
