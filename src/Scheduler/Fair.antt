-- ===== src/Scheduler/Fair.antt =====
-- The round robin starves no thread.
use osdev_graphical.Base.{
  ℕ, zero, suc, ◌+◌, ◌*◌, ◌^◌, ◌≤◌, ◌<◌, ◌≡◌, refl, arith, ◌∙◌, sym, List, [], ◌∷◌, ◌++◌, length,
  length-append, ap,
}
use osdev_graphical.Scheduler.{
  QueueEntry, Scheduler, insert_entry, queue_remove, queue_insert_prioritized_entry,
  enable_scheduling, rotate,
}
use osdev_graphical.Scheduler.Behind.{
  inserts, revapp, revapp-length, revapp_twice, pass_all, head_stays, heads_stay, split_lem,
  inserts_append,
}

abbrev pub rotations : ℕ → Scheduler → Scheduler
rotations zero s = s
rotations (suc n) s = rotations n (rotate s)

-- A turn, on the queue alone.
abbrev pub turn : List QueueEntry → List QueueEntry
turn [] = []
turn (e ∷ q) = insert_entry q e

abbrev pub turns : ℕ → List QueueEntry → List QueueEntry
turns zero q = q
turns (suc n) q = turns n (turn q)

turns_add : (m n : ℕ) (q : List QueueEntry) → turns (m + suc n) q ≡ turns n (turn (turns m q))
turns_add zero n q = let e : 0 + suc n ≡ suc n = omega arith in rw e refl
turns_add (suc m) n q =
    let e : suc m + suc n ≡ suc (m + suc n) = omega arith in rw e (turns_add m n (turn q))

pub pow_suc : (n : ℕ) → 2 ^ suc n ≡ 2 * 2 ^ n
pow_suc n = omega arith

pub pow_mono : (m n : ℕ) → m ≤ n → 2 ^ m ≤ 2 ^ n
pow_mono zero zero h = omega arith
pow_mono zero (suc n) h = omega (arith, pow_mono zero n (omega arith))
pow_mono (suc m) zero h = absurd (omega arith)
pow_mono (suc m) (suc n) h = omega (arith, pow_mono m n (omega arith))

-- After `turns_left` turns all of `rs` has been put behind `z`.
pub record IsAbsorbed (rs : List QueueEntry) (z : QueueEntry) (t : List QueueEntry) : Type 0 where
  pub turns_left : ℕ
  pub behind : List QueueEntry
  pub fast : turns_left < 2 ^ length rs
  pub few : length behind ≤ length rs
  pub done : turns turns_left (revapp rs (z ∷ t)) ≡ inserts behind (z ∷ t)

pub absorb :
    (k : ℕ) (rs : List QueueEntry) (z : QueueEntry) (t : List QueueEntry)
    → length rs ≤ k
    → IsAbsorbed rs z t
absorb k [] z t h = record {
  turns_left = 0;
  behind = [];
  fast = omega arith;
  few = omega arith;
  done = refl;
}
absorb zero (x ∷ rs) z t h = absurd (omega arith)
absorb (suc k) (x ∷ rs) z t h =
    let a = absorb k rs x (z ∷ t) (omega arith) in
    let s = split_lem a.behind x z [] t (omega arith) in
    let (q, hq) = heads_stay z s.behind t in
    let (q2, h2) = head_stays z x q in
    let len = revapp-length s.between [] in
    let b = absorb k (revapp s.between []) z q2 (omega (arith, len, s.size, a.few)) in
    let wide =
      pow_mono (length (revapp s.between [])) (length rs) (omega (arith, len, s.size, a.few)) in
    record {
      turns_left = a.turns_left + suc b.turns_left;
      behind = s.behind ++ (x ∷ b.behind);
      fast = omega (arith, a.fast, b.fast, wide, pow_suc (length rs));
      few = omega (arith, length-append s.behind (x ∷ b.behind), b.few, len, s.size, a.few);
      done =
          turns_add a.turns_left b.turns_left (revapp rs (x ∷ z ∷ t))
          ∙ ap (λ (w : List QueueEntry). turns b.turns_left (turn w))
              (a.done ∙ s.split ∙ ap (λ (w : List QueueEntry). x ∷ (s.between ++ w)) hq)
          ∙ ap (turns b.turns_left) (
              pass_all x z s.between q s.low
              ∙ ap (λ (w : List QueueEntry). s.between ++ w) h2
              ∙ sym (revapp_twice s.between [] (z ∷ q2)))
          ∙ b.done
          ∙ ap (inserts b.behind) (sym h2 ∙ ap (λ (w : List QueueEntry). insert_entry w x) (sym hq))
          ∙ sym (inserts_append s.behind (x ∷ b.behind) (z ∷ t));
    }

pub rotate-turn :
    (q : List QueueEntry) (c : ℕ)
    → (rotate (record { ready_queue = q; current_task = c })).ready_queue ≡ turn q
unfolding rotate queue_remove queue_insert_prioritized_entry enable_scheduling
rotate-turn [] c = refl
rotate-turn (e ∷ q) c = refl

rotations-turns : (n : ℕ) (s : Scheduler) → (rotations n s).ready_queue ≡ turns n s.ready_queue
rotations-turns zero s = refl
rotations-turns (suc n) s =
    rotations-turns n (rotate s) ∙ ap (turns n) (rotate-turn s.ready_queue s.current_task)

-- A thread of the ready queue with the threads `ahead` before it stands at the head of the queue after
-- fewer than `2 ^ length ahead` turns of the round robin, whatever the priorities are.
pub rotations-fair :
    (s : Scheduler) (ahead rest : List QueueEntry) (e : QueueEntry)
    → s.ready_queue ≡ ahead ++ (e ∷ rest)
    → (n : ℕ) × (n < 2 ^ length ahead)
      × ((q : List QueueEntry) × ((rotations n s).ready_queue ≡ e ∷ q))
rotations-fair s ahead rest e h =
    let a = absorb (length (revapp ahead [])) (revapp ahead []) e rest (omega arith) in
    let (q, hq) = heads_stay e a.behind rest in
    let len = revapp-length ahead [] in
    let same : length (revapp ahead []) ≡ length ahead = omega (arith, len) in
    (
      a.turns_left,
      (let b = a.fast in rw same at b),
      (
        q,
        rotations-turns a.turns_left s
            ∙ ap (turns a.turns_left) (h ∙ sym (revapp_twice ahead [] (e ∷ rest)))
            ∙ a.done
            ∙ hq,
      ),
    )
