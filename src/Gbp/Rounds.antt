-- ===== src/Gbp/Rounds.antt =====
-- Rounds of `gbp_transceive` of src/ifd/proto-gbp.c with a reader that answers.
use openct.Prelude.{sym, ℕ, ◌+◌, ◌-◌, ◌^◌, ◌<◌, ◌≡◌, ◌≢◌, ap, ◌∙◌, arith, List, [], length}
use openct.Prelude.{bit_or}
use openct.Prelude.Memory.{store, length-store, sub32}
use openct.Gbp.{
  i_kind, block_type, alive, resynch, buffer_size, i_block, r_block, s_block, other_error, numbered,
  seq,
}
use openct.Gbp.Line.{Device}
use openct.Gbp.Blocks.{frame, build_lem, verify-frame, front_lem}
use openct.Gbp.Card.{answering, xcv_lem}
use openct.Gbp.Transceive.{Run, Next, reply, resync, round, on_block, on_i_block, on_s_block}

module _ (f : List ℕ → List ℕ) where
  abbrev pub card : Device
  card = answering f

  -- The block that is sent in the next round.
  pub record Sending (r : Run card) (pcb : ℕ) (bytes : List ℕ) : Type 0 where
    pub array : List ℕ
    pub front : r.sdata ≡ store array 0 (frame pcb bytes)
    pub count : r.slen ≡ length bytes + 4
    pub size : length array ≡ buffer_size
    pub few : length bytes < 256

  pub reply_lem :
      (r : Run card) (pcb : ℕ) (bytes : List ℕ)
      → length r.sdata ≡ buffer_size
      → length bytes < 256
      → reply card r pcb bytes ≡ record r {
        sdata = store r.sdata 0 (frame (numbered r.gbp.ns pcb) bytes);
        slen = length bytes + 4;
      }
  unfolding reply
  reply_lem r pcb bytes size few =
      let b = build_lem r.gbp r.sdata pcb bytes (omega (arith, size)) in
      ap (λ (x : List ℕ × ℕ). record r { sdata = x.0; slen = x.1 }) b

  -- What a round makes of the answer.
  abbrev pub answered : Run card → List ℕ → ℕ → List ℕ → Run card
  answered r sent pcb' bytes' = record r {
    retries = sub32 r.retries 1;
    gbp = record r.gbp { wtx = 0 };
    device = sent;
    sdata = store r.sdata 0 (frame pcb' bytes');
  }

  pub round_lem :
      (r : Run card) (pcb pcb' : ℕ) (bytes bytes' : List ℕ)
      → r.retries ≢ 0
      → r.gbp.block_oriented ≢ 0
      → Sending r pcb bytes
      → length bytes' < 256
      → f (frame pcb bytes) ≡ frame pcb' bytes'
      → round card r ≡ on_block card (answered r (frame pcb bytes) pcb' bytes') (length bytes' + 4)
  unfolding round
  round_lem r pcb pcb' bytes bytes' some_left oriented s few' e = ground (
    arith,
    some_left,
    s.front,
    s.count,
    xcv_lem f r.gbp r.device s.array pcb pcb' bytes bytes' oriented s.size s.few few' e,
  )

  -- The answer's checksum is right, and its kind is that of `pcb`.
  pub on_block_i :
      (r : Run card) (array bytes : List ℕ) (pcb : ℕ)
      → r.sdata ≡ store array 0 (frame pcb bytes)
      → length array ≡ buffer_size
      → length bytes < 256
      → block_type pcb ≡ i_kind
      → on_block card r (length bytes + 4) ≡ on_i_block card r pcb
  unfolding on_block
  on_block_i r array bytes pcb e size few kind = ground (
    arith,
    e,
    kind,
    verify-frame array pcb bytes (omega (arith, size)),
    (front_lem array pcb bytes (omega (arith, size))).0,
  )

  pub on_block_s :
      (r : Run card) (array : List ℕ)
      → r.sdata ≡ store array 0 (frame 0xE0 [])
      → length array ≡ buffer_size
      → on_block card r 4 ≡ on_s_block card r 0xE0
  unfolding on_block
  on_block_s r array e size = ground (
    arith,
    e,
    verify-frame array 0xE0 [] (omega (arith, size)),
    (front_lem array 0xE0 [] (omega (arith, size))).0,
  )

  -- What does not change any more: the number of the command that is waited for is 1, and that of what
  -- is sent is 0.
  pub record Lost (r : Run card) : Type 0 where
    pub oriented : r.gbp.block_oriented ≢ 0
    pub number : r.gbp.ns ≡ 0
    pub waits : r.send_seq ≡ 1
    pub size : length r.sdata ≡ buffer_size
    pub few : length r.sbuf < 256

  -- It tells the reader to start over, or it has asked for the answer.
  pub data PhaseOf (r : Run card) : Type 0 where
    restarts : r.gbp.state ≡ resynch → r.retries ≢ 0 → Sending r 0xC0 [] → PhaseOf r
    asks : (pcb : ℕ) (bytes : List ℕ) → pcb ≢ 0xC0 → 0 < r.resyncs → Sending r pcb bytes → PhaseOf r

  -- A round that sends another block next.
  pub record GoesOn (r : Run card) : Type 0 where
    pub next : Run card
    pub result : round card r ≡ Next.again next
    pub lost : Lost next
    pub phase : PhaseOf next

  numbered-zero : (ns pcb p : ℕ) → ns ≡ 0 → numbered 0 pcb ≡ p → numbered ns pcb ≡ p
  numbered-zero ns pcb p e h = ap (λ n. numbered n pcb) e ∙ h

  pub i_block_step :
      (r : Run card)
      → r.send_seq ≡ 1
      → on_i_block card r 0 ≡ Next.again (reply card r (bit_or r_block other_error) [])
  unfolding on_i_block seq
  i_block_step r e = ground (arith, e)

  pub s_block_step :
      (r : Run card)
      → r.gbp.state ≡ resynch
      → on_s_block card r 0xE0
        ≡ Next.again (
            reply card
              (record r {
                gbp = record r.gbp { state = alive };
                resyncs = 3;
                retries = r.gbp.retries;
              })
              i_block
              r.sbuf)
  unfolding on_s_block
  s_block_step r e = ground (arith, e)

  pub no_retries_step :
      (r : Run card)
      → r.retries ≡ 0
      → 0 < r.resyncs
      → let r0 = record r {
        retries = 2 ^ 32 - 1;
        resyncs = r.resyncs - 1;
        gbp = record r.gbp { ns = 0 };
      } in
        let r1 = reply card r0 s_block [] in
        round card r ≡ Next.again (record r1 { gbp = record r1.gbp { state = resynch } })
  unfolding round resync reply
  no_retries_step r e some_left = ground (arith, e, some_left)

  -- A block is put into the array, under the number 0.
  pub sends :
      (r : Run card) (pcb p : ℕ) (bytes : List ℕ)
      → Lost r
      → length bytes < 256
      → numbered 0 pcb ≡ p
      → Sending (reply card r pcb bytes) p bytes × Lost (reply card r pcb bytes)
  sends r pcb p bytes l few e =
      let same = reply_lem r pcb bytes l.size few in
      let n = numbered-zero r.gbp.ns pcb p l.number e in
      (
        record {
          array = r.sdata;
          front = ap (λ (x : Run card). x.sdata) same ∙ ap (λ q. store r.sdata 0 (frame q bytes)) n;
          count = ap (λ (x : Run card). x.slen) same;
          size = l.size;
          few = few;
        },
        record {
          oriented = λ e. l.oriented (sym (ap (λ (x : Run card). x.gbp.block_oriented) same) ∙ e);
          number = ap (λ (x : Run card). x.gbp.ns) same ∙ l.number;
          waits = ap (λ (x : Run card). x.send_seq) same ∙ l.waits;
          size =
              ap (λ (x : Run card). length x.sdata) same
              ∙ length-store r.sdata 0 (frame (numbered r.gbp.ns pcb) bytes)
              ∙ l.size;
          few = omega (arith, ap (λ (x : Run card). length x.sbuf) same, l.few);
        },
      )
