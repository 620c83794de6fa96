-- ===== src/Client/Messages.antt =====
-- The bytes of a command on its way: what the client library writes, and what the handler reads of it.
use openct.Prelude.{ℕ, ◌+◌, ◌<◌, ◌≤◌, ◌≡◌, ◌^◌, refl, ap, sym, ◌∙◌, arith, true, false, Bool, some}
use openct.Prelude.{List, [], ◌∷◌, ◌++◌, length, take, take-all, drop, length-append, append-nil}
use openct.Buffer.{Buf, init, set, contents, avail, putc, get}
use openct.Buffer
use openct.Buffer.Inv.{IsValid, init-IsValid, set-IsValid, length-contents, get-IsValid}
use openct.Buffer.Append.{putc_fits, grown-IsValid, contents-grown}
use openct.Buffer.Lines.{contents_advance, get_fits}
use openct.Tlv.{builder_init}
use openct.Tlv.Parse.{from_head}
use openct.Tlv.Build.{put_opaque-Added, header_bytes}
use openct.Tlv.RoundTrip.{encode, IsItem}
use openct.Locks.{Table, Socket}
use openct.Process.{Reader}
use openct.Process.Dispatch.{process, with_tlv, is_old, command_of}
use openct.Client.{begin, args_opaque}

-- A buffer that holds these bytes behind nothing.
pub record Holds (b : Buf) (size : ℕ) (bs : List ℕ) : Type 0 where
  pub valid : IsValid b
  pub sized : b.size ≡ size
  pub ends : b.tail ≡ length bs
  pub bytes : contents b ≡ bs

putc-Holds :
    {b : Buf} {size : ℕ} {bs : List ℕ} (c : ℕ)
    → Holds b size bs
    → c < 256
    → length bs < size
    → Holds (putc b c).0 size (bs ++ (c ∷ []))
putc-Holds {b} {size} {bs} c h lt room =
    let e = putc_fits b c h.valid (omega (arith, h.sized, h.ends)) lt in
    rw e (record {
      valid = grown-IsValid b (c ∷ []) h.valid (omega (arith, h.sized, h.ends));
      sized = h.sized;
      ends = omega (arith, h.ends, length-append bs (c ∷ []));
      bytes =
          contents-grown b (c ∷ []) h.valid (omega (arith, h.sized, h.ends))
          ∙ ap (λ t. t ++ (c ∷ [])) h.bytes;
    })

pub begin-Holds :
    (mem : List ℕ) (size cmd slot : ℕ)
    → size ≤ length mem
    → 2 ≤ size
    → size < 2 ^ 31
    → cmd < 256
    → slot < 256
    → Holds (begin mem size cmd slot) size (cmd ∷ slot ∷ [])
unfolding begin
begin-Holds mem size cmd slot fits two small c s =
    let start : Holds (init mem size) size [] =
      unfold init in
      record {
        valid = unfold init in init-IsValid mem size fits small;
        sized = omega arith;
        ends = refl;
        bytes = refl;
      } in
    putc-Holds slot (putc-Holds cmd start c (omega arith)) s (omega arith)

pub args_opaque-Holds :
    {b : Buf} {size : ℕ} {bs : List ℕ} (tag : ℕ) (v : List ℕ)
    → Holds b size bs
    → IsItem true (tag, v)
    → length bs + (3 + length v) ≤ size
    → Holds (args_opaque b tag v) size (bs ++ encode true ((tag, v) ∷ []))
unfolding args_opaque builder_init
args_opaque-Holds {b} {size} {bs} tag v h it room =
    let a =
      put_opaque-Added (builder_init b true) tag v (unfold builder_init in refl) h.valid it.0
        (unfold builder_init in omega (arith, h.sized, h.ends, room))
        (unfold builder_init in it.2) in
    record {
      valid = a.valid;
      sized = a.same_size ∙ h.sized;
      ends = omega (
        arith,
        a.longer,
        h.ends,
        length-append bs (encode true ((tag, v) ∷ [])),
        length-append v [],
      );
      bytes =
          a.added
          ∙ ap (λ t. t ++ (header_bytes true tag (length v) ++ v)) h.bytes
          ∙ ap (λ t. bs ++ (header_bytes true tag (length v) ++ t)) (sym (append-nil v));
    }

-- A byte in front is taken.
record Taken1 (b : Buf) (c : ℕ) (cs : List ℕ) : Type 0 where
  rest : Buf
  got : Buffer.get b 1 ≡ (rest, some (c ∷ []))
  valid : IsValid rest
  bytes : contents rest ≡ cs

take1 : (b : Buf) (c : ℕ) (cs : List ℕ) → IsValid b → contents b ≡ c ∷ cs → Taken1 b c cs
unfolding Buffer.get
take1 b c cs v e =
    let long : 1 ≤ avail b = omega (arith, ap length e, length-contents v) in
    record {
      rest = (Buffer.get b 1).0;
      got = ground (arith, long, ap (take 1) (from_head b (c ∷ cs) e).1);
      valid = get-IsValid 1 v;
      bytes = ap contents (get_fits b 1 long) ∙ contents_advance 1 v long ∙ ap (drop 1) e;
    }

contents-set :
    (mem : List ℕ) (len : ℕ) → length mem ≡ len → len < 2 ^ 31 → contents (set mem len) ≡ mem
unfolding set init
contents-set mem len e small =
    ap (λ n. take n mem) {y = len} (omega arith) ∙ take-all len mem (omega (arith, e))

-- The command at the handler, behind its first two bytes.
pub record Arrived (args : Buf) (cmd slot : ℕ) (bs : List ℕ) : Type 1 where
  pub rest : Buf
  pub valid : IsValid rest
  pub bytes : contents rest ≡ bs
  pub processed :
      (rd : Reader) (memory : Bool) (t : Table) (sock : Socket) (large : Bool) (s : rd.State)
      (resbuf : Buf)
      → is_old rd (command_of cmd) ≡ false
      → process rd memory t sock large s (set (contents args) (avail args)) resbuf
        ≡ with_tlv rd memory t sock large s (command_of cmd) slot rest resbuf

pub arrive :
    {args : Buf} {size : ℕ} {bs : List ℕ} (cmd slot : ℕ)
    → Holds args size (cmd ∷ slot ∷ bs)
    → Arrived args cmd slot bs
unfolding process
arrive {args} {size} {bs} cmd slot h =
    let n : length (contents args) ≡ avail args = omega (arith, length-contents h.valid, h.valid) in
    let v0 = set-IsValid (contents args) (avail args) (omega (arith, n)) (omega (arith, h.valid)) in
    let one =
      take1 (set (contents args) (avail args)) cmd (slot ∷ bs) v0
        (contents-set (contents args) (avail args) n (omega (arith, h.valid)) ∙ h.bytes) in
    let two = take1 one.rest slot bs one.valid one.bytes in
    record {
      rest = two.rest;
      valid = two.valid;
      bytes = two.bytes;
      processed = λ rd memory t sock large s resbuf new. ground (arith, one.got, two.got, new);
    }
