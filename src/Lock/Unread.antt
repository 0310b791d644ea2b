-- ===== src/Lock/Unread.antt =====
-- A process of lib/lock.js that meets a lock file which is released before it reads it.
use open_vibe_host.Base.{
  ℕ, Bool, true, false, none, some, nat_beq, ◌≡◌, ◌≢◌, refl, sym, beq_refl, nat_eq,
}
use open_vibe_host.Lock.Race.{
  reading, removing, retrying, holding, released, System, move, Step, Reaches, here, then_step,
  Always, names, unlocked,
}
use open_vibe_host.Lock.Stale.{distinct}

module _ (alive : ℕ → Bool) (p q r : ℕ) (pq : nat_beq p q ≡ false) (qp : nat_beq q p ≡ false)
    (pr : nat_beq p r ≡ false) (rp : nat_beq r p ≡ false) (qr : nat_beq q r ≡ false)
    (rq : nat_beq r q ≡ false) (p_live : alive p ≡ true) (q_live : alive q ≡ true)
    (r_live : alive r ≡ true) where
  abbrev owned : System
  owned = record { file = some (names q); points = move q holding unlocked.points }

  abbrev met : System
  met = record { file = some (names q); points = move p reading owned.points }

  abbrev let_go : System
  let_go = record { file = none; points = move q released met.points }

  abbrev misread : System
  misread = record { file = none; points = move p removing let_go.points }

  abbrev next_owned : System
  next_owned = record { file = some (names r); points = move r holding misread.points }

  abbrev removed : System
  removed = record { file = none; points = move p retrying next_owned.points }

  abbrev both_owned : System
  both_owned = record { file = some (names p); points = move p holding removed.points }

  p_is : nat_beq p p ≡ true
  p_is = beq_refl p

  q_is : nat_beq q q ≡ true
  q_is = beq_refl q

  r_is : nat_beq r r ≡ true
  r_is = beq_refl r

  reached : Reaches alive Always unlocked both_owned
  reached =
      let r1 = then_step unlocked owned here (Step.creates q unlocked.points q_live refl) in
      let r2 =
        then_step owned met r1 (Step.meets p (names q) owned.points p_live (simp (pq, qp))) in
      let r3 = then_step met let_go r2 (Step.releases q met q_live (simp (q_is, pq)) tt) in
      let r4 =
        then_step let_go misread r3 (Step.reads_nothing p let_go.points p_live (simp (p_is, qp))) in
      let r5 =
        then_step misread next_owned r4 (Step.creates r misread.points r_live (simp (pr, qr))) in
      let r6 =
        then_step next_owned removed r5 (Step.removes p next_owned p_live (simp (rp, p_is))) in
      then_step removed both_owned r6 (Step.recreates p removed.points p_live (simp p_is))

  p_holds : both_owned.points p ≡ holding
  p_holds = simp p_is

  r_holds : both_owned.points r ≡ holding
  r_holds = simp (pr, r_is)

-- Of three living processes, none of which ever stops, two may come to hold the lock at once, from no
-- lock file on: one meets the file of another, which is released before it is read, and then removes
-- the file of a third.
pub Reaches-both_live :
    (alive : ℕ → Bool) (p q r : ℕ)
    → p ≢ q
    → p ≢ r
    → q ≢ r
    → alive p ≡ true
    → alive q ≡ true
    → alive r ≡ true
    → (t : System) × Reaches alive Always unlocked t
      × (t.points p ≡ holding)
      × (t.points r ≡ holding)
Reaches-both_live alive p q r n m k p_live q_live r_live =
    let pq = distinct p q n in
    let qp = distinct q p (λ e. n (sym e)) in
    let pr = distinct p r m in
    let rp = distinct r p (λ e. m (sym e)) in
    let qr = distinct q r k in
    let rq = distinct r q (λ e. k (sym e)) in
    (
      both_owned alive p q r pq qp pr rp qr rq p_live q_live r_live,
      reached alive p q r pq qp pr rp qr rq p_live q_live r_live,
      p_holds alive p q r pq qp pr rp qr rq p_live q_live r_live,
      r_holds alive p q r pq qp pr rp qr rq p_live q_live r_live,
    )
