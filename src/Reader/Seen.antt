-- ===== src/Reader/Seen.antt =====
-- What a client learns of the cards: the numbers that src/ifd/reader.c gives them, as `ct_card_status` of
-- src/ct/client.c reads them.
use openct.Prelude.{ℕ, ◌+◌, ◌≡◌, ◌≢◌, ◌<◌, ◌≤◌, ◌^◌, refl, arith, true, false, Bool, List, [], ◌∷◌}
use openct.Prelude.{◌==◌, if◌then◌else◌, bit_and, ◌||◌, not, length, Bool-cases, inl, inr, ◌⊎◌}
use openct.Prelude.Outcome.{ok}
use openct.Reader.Poll.{Numbers, slot_status_update}
use openct.Client.Status.{Cards, card_status}

-- Reports of the driver, each of a slot with its status.
pub update_run : Numbers → List (ℕ × ℕ) → Numbers
update_run n [] = n
update_run n ((slot, status) ∷ es) = update_run (slot_status_update n slot status) es

-- What a client should learn of one slot: whether there is a card, and whether it is another one, or was
-- taken out, since the client looked last.
pub record Watch : Type 0 where
  pub present : Bool
  pub changed : Bool

abbrev pub watch_one : Watch → ℕ → Watch
watch_one w status =
    if bit_and status 1 == 0
    then record { present = false; changed = true }
    else if not w.present || not (bit_and status 2 == 0)
    then record { present = true; changed = true }
    else w

unfoldable pub watch : ℕ → Watch → List (ℕ × ℕ) → Watch
watch slot w [] = w
watch slot w ((k, status) ∷ es) = watch slot (if k == slot then watch_one w status else w) es

-- Present is 1, and changed 2, which only a card that is there is reported with.
abbrev pub report : Watch → ℕ
report w = if w.present then (if w.changed then 3 else 1) else 0

-- What the numbers say of the slot of which the client has seen `seen`.
record Agrees (slot seen : ℕ) (n : Numbers) (w : Watch) : Type 0 where
  old : seen < n.card_seq
  bounded : n.seqs slot < n.card_seq
  here : (n.seqs slot == 0) ≡ not w.present
  known :
      ((w.changed ≡ false) × (n.seqs slot ≡ seen))
      ⊎ ((w.changed ≡ true) × ((w.present ≡ false) ⊎ (n.seqs slot ≢ seen)))

step-Agrees :
    (slot seen k status : ℕ) (n : Numbers) (w : Watch)
    → Agrees slot seen n w
    → n.card_seq + 1 < 2 ^ 32
    → Agrees slot seen (slot_status_update n k status) (if k == slot then watch_one w status else w)
      × ((slot_status_update n k status).card_seq ≤ n.card_seq + 1)
unfolding slot_status_update
step-Agrees slot seen k status n w a few = elim (Bool-cases (k == slot)) [
  | inr other ↦ elim a.known [
    | inl x ↦ (
      record {
        old = ground (arith, other);
        bounded = ground (arith, other);
        here = ground (arith, other);
        known = ground (arith, other);
      },
      ground arith,
    )
    | inr x ↦ (
      record {
        old = ground (arith, other);
        bounded = ground (arith, other);
        here = ground (arith, other);
        known = ground (arith, other);
      },
      ground arith,
    )
  ]
  | inl mine ↦ (
    record {
      old = ground (arith, mine);
      bounded = ground (arith, mine);
      here = ground (arith, mine);
      known = ground (arith, mine);
    },
    ground arith,
  )
]

run-Agrees :
    (slot seen : ℕ) (es : List (ℕ × ℕ)) (n : Numbers) (w : Watch)
    → Agrees slot seen n w
    → n.card_seq + length es < 2 ^ 32
    → Agrees slot seen (update_run n es) (watch slot w es)
      × ((update_run n es).card_seq ≤ n.card_seq + length es)
unfolding update_run watch
run-Agrees slot seen [] n w a few = (a, omega arith)
run-Agrees slot seen ((k, status) ∷ es) n w a few =
    let s = step-Agrees slot seen k status n w a (omega arith) in
    let r =
      run-Agrees slot seen es (slot_status_update n k status)
        (if k == slot then watch_one w status else w) s.0 (omega (arith, s.1)) in
    (r.0, omega (arith, r.1, s.1))

-- The status file as the client maps it.
abbrev pub cards : ℕ → Numbers → Cards
cards slots n = record { slots = slots; seq = n.seqs }

abbrev pub no_cards : Numbers
no_cards = record { seqs = λ k. 0; card_seq = 1 }

abbrev pub absent : Watch
absent = record { present = false; changed = false }

abbrev pub looked : Watch → Watch
looked w = record w { changed = false }

report_lem :
    (slot slots seen : ℕ) (n : Numbers) (w : Watch) (last : ℕ → ℕ)
    → slot ≤ slots
    → Agrees slot seen n w
    → last slot ≡ seen
    → (card_status last (cards slots n) slot).1 ≡ ok (report w)
unfolding card_status
report_lem slot slots seen n w last near a e = ground (arith, e)

-- A client that looks at a slot, and again later, learns whether there is a card now. Where there is
-- one, it learns that it changed exactly if in between a report showed an empty slot or a card change, or
-- a card came; where there is none, it gets 0, so it is not told that a card was taken out. Both runs of
-- reports are any, and of all slots, with fewer than 2 ^ 32 - 1 reports together.
pub client_sees :
    (slot slots : ℕ) (before after : List (ℕ × ℕ)) (seen : ℕ → ℕ)
    → slot ≤ slots
    → length before + length after + 1 < 2 ^ 32
    → let n1 = update_run no_cards before in
      let seen1 = (card_status seen (cards slots n1) slot).0 in
      (card_status seen1 (cards slots (update_run n1 after)) slot).1
      ≡ ok (report (watch slot (looked (watch slot absent before)) after))
client_sees slot slots before after seen near few =
    report_lem slot slots (n1.seqs slot) (update_run n1 after) (watch slot (looked w1) after)
      (card_status seen (cards slots n1) slot).0 near second.0 (unfold card_status in ground arith)
  where
    n1 : Numbers
    n1 = update_run no_cards before

    w1 : Watch
    w1 = watch slot absent before

    start : Agrees slot 0 no_cards absent
    start = record {
      old = omega arith;
      bounded = omega arith;
      here = refl;
      known = inl (refl, refl);
    }

    first : Agrees slot 0 n1 w1 × (n1.card_seq ≤ 1 + length before)
    first = run-Agrees slot 0 before no_cards absent start (omega arith)

    second :
        Agrees slot (n1.seqs slot) (update_run n1 after) (watch slot (looked w1) after)
        × ((update_run n1 after).card_seq ≤ n1.card_seq + length after)
    second =
        run-Agrees slot (n1.seqs slot) after n1 (looked w1)
          (record {
            old = first.0.bounded;
            bounded = first.0.bounded;
            here = first.0.here;
            known = inl (refl, refl);
          })
          (omega (arith, first.1))
