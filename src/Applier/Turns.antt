-- ===== src/Applier/Turns.antt =====
-- Turns of the loop: a tick between a GTID and its BEGIN.
use text.Mathlib.Text.{◌==◌ as same}
use myduckserver.Base.{ℕ, Bool, true, false, some, ◌≡◌, refl, done}
use myduckserver.Base.Actions.{◌>>=◌, ◌>>◌, pure, modify}
use myduckserver.Delta.Flush.{Engine}
use myduckserver.Applier.{Gtid, Positions, BinlogFormat, Applier, Applying}
use myduckserver.Applier.Server.{Server}
use myduckserver.Applier.Commit.{may_extend_batch_txn, extend_or_commit_batch_txn}
use myduckserver.Applier.Rows.{Rower}
use myduckserver.Applier.Events.{
  gtid_event, BinlogReader, announce, strip, persist_source_uuid, process_gtid, process_kind,
  process_binlog_event,
}
use myduckserver.Applier.Kept.Query.{extendable_ongoing}
use myduckserver.Applier.Loop.{
  Happening, binlog_event, ticking, Handler, log_outcome, is_clean_batch, on_tick, handle, turn,
}

module _ {D T P X V B R E : Type 0} (v : Server D T P V) (p : Positions P) (e : Engine D B R)
    (w : Rower B X V) (x : BinlogReader E) (no_index : Bool) where
  abbrev IsOn : Handler D B P → Type 0
  IsOn h = (h.running ≡ true) × (h.has_conn ≡ true)

  turn-handle :
      (now : ℕ) (ev : Happening E) (h : Handler D B P)
      → IsOn h
      → turn v p e w x no_index now ev h ≡ handle v p e w x no_index now ev h
  unfolding turn
  turn-handle now ev h (a, b) = rw (a, b) refl

  abbrev told : ℕ → ℕ → Gtid → Applying D B P → Applying D B P
  told now id g r = record r {
    applier = announce g r.applier;
    status = record r.status { source_server_id = id };
  }

  strip-kept :
      (now : ℕ) (ev : E) (f : BinlogFormat) (r : Applying D B P)
      → r.applier.format ≡ some f
      → x.kind ev ≡ gtid_event
      → x.strip_checksum f ev ≡ (ev, true)
      → strip v p e w x no_index now ev r ≡ (r, done ev)
  unfolding strip
  strip-kept now ev f r hf hk hs = rw hf (rw hk (rw hs refl))

  process_gtid-announced :
      (now : ℕ) (ev : E) (f : BinlogFormat) (g : Gtid) (r : Applying D B P)
      → r.applier.format ≡ some f
      → x.gtid f ev ≡ some (g, false)
      → same r.applier.replication_source_uuid "" ≡ false
      → process_gtid v p e w x no_index now ev r
        ≡ (record r { applier = announce g r.applier }, done tt)
  unfolding process_gtid persist_source_uuid modify pure ◌>>◌ announce
  process_gtid-announced now ev f g r hf hg hu = rw hf (rw hg (rw hu refl))

  -- What a GTID event, which is not a BEGIN itself, does while the source is known.
  gtid_processed :
      (now : ℕ) (ev : E) (f : BinlogFormat) (g : Gtid) (r : Applying D B P)
      → r.applier.format ≡ some f
      → x.kind ev ≡ gtid_event
      → x.strip_checksum f ev ≡ (ev, true)
      → x.gtid f ev ≡ some (g, false)
      → same r.applier.replication_source_uuid "" ≡ false
      → process_binlog_event v p e w x no_index now ev r ≡ (told now (x.server_id ev) g r, done tt)
  unfolding process_binlog_event process_kind modify ◌>>=◌ ◌>>◌
  gtid_processed now ev f g r hf hk hs hg hu =
      let seen : Applying D B P = record r {
        status = record r.status { source_server_id = x.server_id ev };
      } in
      rw (strip-kept now ev f seen hf hk hs)
        (rw hk (process_gtid-announced now ev f g seen hf hg hu))

  announced_extend :
      (later : ℕ) (g : Gtid) (a : Applier B P)
      → may_extend_batch_txn later (announce g a) ≡ may_extend_batch_txn later a
  unfolding may_extend_batch_txn announce
  announced_extend later g a = refl

  ticked :
      (later : ℕ) (g : Gtid) (h : Handler D B P)
      → h.applying.applier.dirty_stream ≡ false
      → h.applying.applier.current_gtid ≡ some g
      → (may_extend_batch_txn later h.applying.applier).0 ≡ true
      → handle v p e w x no_index later ticking h ≡ record h {
        applying = record h.applying {
          applier = record h.applying.applier {
            pending_position = p.append_gtid h.applying.applier.pending_position (some g);
            dirty_stream = false;
          };
        };
      }
  unfolding handle on_tick is_clean_batch log_outcome extend_or_commit_batch_txn modify
  ticked later g h clean cur ext =
      simp (extendable_ongoing later h.applying.applier ext, clean, ext, cur) refl

  turn-announces :
      (now : ℕ) (ev : E) (f : BinlogFormat) (g : Gtid) (h : Handler D B P)
      → IsOn h
      → h.applying.applier.format ≡ some f
      → x.kind ev ≡ gtid_event
      → x.strip_checksum f ev ≡ (ev, true)
      → x.gtid f ev ≡ some (g, false)
      → same h.applying.applier.replication_source_uuid "" ≡ false
      → turn v p e w x no_index now (binlog_event ev) h
        ≡ record h { applying = told now (x.server_id ev) g h.applying }
  unfolding handle log_outcome
  turn-announces now ev f g h on hf hk hs hg hu =
      rw (turn-handle now (binlog_event ev) h on)
        (rw (gtid_processed now ev f g h.applying hf hk hs hg hu) refl)

  -- A batch that may go on, and a GTID event: the next tick adds the GTID to the pending position, and nothing
  -- of its transaction was executed, nor its BEGIN seen.
  pub turn-announced :
      (now later : ℕ) (ev : E) (f : BinlogFormat) (g : Gtid) (h : Handler D B P)
      → IsOn h
      → h.applying.applier.dirty_stream ≡ false
      → (may_extend_batch_txn later h.applying.applier).0 ≡ true
      → h.applying.applier.format ≡ some f
      → x.kind ev ≡ gtid_event
      → x.strip_checksum f ev ≡ (ev, true)
      → x.gtid f ev ≡ some (g, false)
      → same h.applying.applier.replication_source_uuid "" ≡ false
      → let k =
          turn v p e w x no_index later ticking (turn v p e w x no_index now (binlog_event ev) h) in
        (k.applying.applier.pending_position
          ≡ p.append_gtid h.applying.applier.pending_position (some g))
        × (k.applying.database ≡ h.applying.database)
        × (k.applying.applier.deltas ≡ h.applying.applier.deltas)
  unfolding announce
  turn-announced now later ev f g h on clean ext hf hk hs hg hu =
      let h' : Handler D B P = record h { applying = told now (x.server_id ev) g h.applying } in
      let clean_told : h'.applying.applier.dirty_stream ≡ false = clean in
      let ext_told : (may_extend_batch_txn later h'.applying.applier).0 ≡ true =
        rw (announced_extend later g h.applying.applier) ext in
      rw (turn-announces now ev f g h on hf hk hs hg hu) (
        rw (turn-handle later ticking h' on)
          (rw (ticked later g h' clean_told refl ext_told) (refl, refl, refl)))
