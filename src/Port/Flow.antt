-- ===== src/Port/Flow.antt =====
-- JacksRbPort.c: a port over any sequence of process cycles and reads of the program.
use jacks.Prelude.{
  ℕ, ◌+◌, ◌*◌, ◌%◌, ◌^◌, ◌<◌, ◌≡◌, refl, sym, ◌∙◌, ap, ap₂, List, [], ◌∷◌, ◌++◌, append-nil,
  append_assoc, take-append-drop, Option, some, none, take, drop, ℤ, pos, minus_one, arith, dec_le,
  ◌⊎◌, inl, inr,
}
use jacks.Memory.{Outcome, ok, ◌>>=◌}
use jacks.Libraries.{RingLib, JackLib}
use jacks.Port.{Port, read_from_ringbuffer, write_to_ringbuffer}
use jacks.Port.Stream.{IsReady, Fetched, read_from_ringbuffer_lem}
use jacks.Port.Write.{space, write-fits, write_overruns}

module _ (R : RingLib) (J : JackLib) where
  open R use {Ring, contents, capacity}
  open J use {Server, port_get_buffer}

  -- A process cycle of `nframes` frames, with the server that holds its samples; a read.
  pub data Use : Type 0 where
    cycle : Server → ℕ → Use
    fetch : Use

  -- What a sequence of uses leaves: the results of the cycles, and the bytes that the reads gave.
  pub record Log : Type 0 where
    pub results : List ℤ
    pub fetched : List ℕ
    pub port : Port Ring

  abbrev got_bytes : Option (List ℕ) → ℕ → List ℕ
  got_bytes none len = []
  got_bytes (some array) len = take len array

  unfoldable pub run : Port Ring → List Use → Outcome Log
  run p [] = ok (record { results = []; fetched = []; port = p })
  run p (cycle s n ∷ us) = do
    done ← write_to_ringbuffer R J s p n
    log ← run done.1 us
    ok (record log { results = done.0 ∷ log.results })
  run p (fetch ∷ us) = do
    got ← read_from_ringbuffer R p
    log ← run got.2 us
    ok (record log { fetched = got_bytes got.0 got.1 ++ log.fetched })

  -- Cycles have an `nframes` of 32 bits.
  abbrev pub InRange : List Use → Type 0
  InRange [] = Unit {0}
  InRange (cycle s n ∷ us) = (n < 2 ^ 32) × InRange us
  InRange (fetch ∷ us) = InRange us

  -- All the samples of the cycles of a JACK port, in order.
  abbrev pub produced : ℕ → List Use → List ℕ
  produced j [] = []
  produced j (cycle s n ∷ us) = port_get_buffer s j n ++ produced j us
  produced j (fetch ∷ us) = produced j us

  -- No cycle failed.
  abbrev pub AllWell : List ℤ → Type 0
  AllWell [] = Unit {0}
  AllWell (r ∷ rs) = (r ≡ pos 0) × AllWell rs

  -- What one cycle does on a ready port that is JACK's port `j`.
  pub record Wrote (p : Port Ring) (v : IsReady R p) (j : ℕ) (s : Server) (n : ℕ) : Type 0 where
    pub rc : ℤ
    pub after : Port Ring
    pub ready : IsReady R after
    pub returns : write_to_ringbuffer R J s p n ≡ ok (rc, after)
    pub verdict : (rc ≡ pos 0) ⊎ (rc ≡ minus_one)
    pub lossless : rc ≡ pos 0 → contents ready.ring ≡ contents v.ring ++ port_get_buffer s j n
    pub kept : after.jport ≡ p.jport

  abbrev pub refilled :
      (p : Port Ring) (v : IsReady R p) (r : Ring) (k : ℕ)
      → IsReady R (record p { rb = some r; overruns = k })
  refilled p v r k = record {
    ring = r;
    buffer = v.buffer;
    has_ring = refl;
    has_buffer = v.has_buffer;
    sized = v.sized;
    small = v.small;
  }

  pub write_lem :
      (p : Port Ring) (v : IsReady R p) (j : ℕ) (s : Server) (n : ℕ)
      → p.jport ≡ some j
      → n < 2 ^ 32
      → Wrote p v j s n
  write_lem p v j s n given small = elim (dec_le (4 * n) (space R J s p j n v.ring)) [
    | yes fits ↦
        let (r', e, c, _) = write-fits R J s p j n given v.has_ring small fits in
        record {
          rc = pos 0;
          after = record p { rb = some r' };
          ready = refilled p v r' p.overruns;
          returns = e;
          verdict = inl refl;
          lossless = λ _. c;
          kept = refl;
        }
    | no over ↦
        let (r', e, _, _, _) = write_overruns R J s p j n given v.has_ring small (omega arith) in
        record {
          rc = minus_one;
          after = record p { rb = some r'; overruns = (p.overruns + 1) % 2 ^ 32 };
          ready = refilled p v r' ((p.overruns + 1) % 2 ^ 32);
          returns = e;
          verdict = inr refl;
          lossless = λ q. cc;
          kept = refl;
        }
  ]

  pub record Flowed (p : Port Ring) (v : IsReady R p) (j : ℕ) (us : List Use) : Type 0 where
    pub log : Log
    pub ready : IsReady R log.port
    pub returns : run p us ≡ ok log
    pub lossless :
        AllWell log.results → contents v.ring ++ produced j us ≡ log.fetched ++ contents ready.ring
    pub port_kept : log.port.jport ≡ p.jport

  -- On a port that JACK registered, no sequence of cycles and reads faults; and as long as no cycle reports an overrun, what the
  -- reads give, followed by what the ring still holds, is what the ring held followed by every
  -- sample of every cycle: nothing is lost, repeated or reordered.
  pub run_lem :
      (us : List Use) (p : Port Ring) (v : IsReady R p) (j : ℕ)
      → p.jport ≡ some j
      → InRange us
      → Flowed p v j us
  unfolding run
  run_lem [] p v j given h = record {
    log = record { results = []; fetched = []; port = p };
    ready = v;
    returns = refl;
    lossless = λ _. append-nil (contents v.ring);
    port_kept = refl;
  }
  run_lem (cycle s n ∷ us) p v j given h =
      let w : Wrote p v j s n = write_lem p v j s n given h.0 in
      let f : Flowed w.after w.ready j us = run_lem us w.after w.ready j (w.kept ∙ given) h.1 in
      record {
        log = record f.log { results = w.rc ∷ f.log.results };
        ready = f.ready;
        returns = rw (w.returns, f.returns);
        lossless = λ q.
            sym (append_assoc (contents v.ring) (port_get_buffer s j n) (produced j us))
            ∙ (ap (λ t. t ++ produced j us) (sym (w.lossless q.0)) ∙ f.lossless q.1);
        port_kept = f.port_kept ∙ w.kept;
      }
  run_lem (fetch ∷ us) p v j given h =
      let w : Fetched R p v = read_from_ringbuffer_lem R p v in
      let f : Flowed w.after w.ready j us = run_lem us w.after w.ready j (w.kept ∙ given) h in
      record {
        log = record f.log { fetched = take w.len w.array ++ f.log.fetched };
        ready = f.ready;
        returns = rw (w.returns, f.returns);
        lossless = λ q.
            ap (λ t. t ++ produced j us) (sym (take-append-drop p.rb_size (contents v.ring)))
            ∙ (append_assoc (take p.rb_size (contents v.ring)) (drop p.rb_size (contents v.ring))
                  (produced j us)
                ∙ (ap₂ ◌++◌ (sym w.bytes) (ap (λ t. t ++ produced j us) (sym w.rest) ∙ f.lossless q)
                    ∙ sym
                        (append_assoc (take w.len w.array) f.log.fetched (contents f.ready.ring))));
        port_kept = f.port_kept ∙ w.kept;
      }
