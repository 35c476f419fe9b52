-- ===== src/Applier/Counted.antt =====
-- What the rows of an event count in the delta buffer, where all of them reach it.
use myduckserver.Base.{
  ℕ, List, [], ◌∷◌, length, Outcome, done, failed, panicked, ◌≡◌, refl, ap, ◌∙◌,
}
use myduckserver.Base.Actions.{Keeps, >>-Keeps, pure-Keeps}
use myduckserver.Base.Leads.{Leads, >>-Leads, modify-Leads, Keeps-Leads}
use myduckserver.Charset.{Bytes}
use myduckserver.Delta.{
  RowEventType, delete_row_event, update_row_event, insert_row_event, Counters, update_action_stats,
  observe_events, count_event,
}
use myduckserver.Delta.Statements.{Column}
use myduckserver.Delta.Flush.{Appender}
use myduckserver.Applier.{TableMap, Bitmap, BinlogRow, ApplyError}
use myduckserver.Applier.Rows.{
  TxnMark, Rower, Images, sized, append_image, append_images, append_action, observe, append_event,
}

module _ {B X V : Type 0} (w : Rower B X V) (t : TableMap) (schema : List Column) (mark : TxnMark)
    (stmt : ℕ) where
  abbrev Counts : Counters → Images w → Type 0
  Counts c i = i.0.counters ≡ c

  sized-counters :
      (a : Appender B) (n : ℕ) (q : B × Outcome ApplyError ℕ)
      → (sized w a n q).0.0.counters ≡ a.counters
  sized-counters a n (b, done k) = refl
  sized-counters a n (b, failed e) = refl
  sized-counters a n (b, panicked) = refl

  append_image-Counts :
      (c : Counters) (action : RowEventType) (nulls : Bitmap) (d : Bytes)
      → Keeps (Counts c) (append_image w t schema action mark stmt nulls d)
  unfolding append_image
  append_image-Counts c action nulls d = record { keeps = λ (a, n) h. sized-counters a n _ ∙ h }

  append_images-Counts :
      (c : Counters) (action : RowEventType) (rs : List BinlogRow)
      → Keeps (Counts c) (append_images w t schema action mark stmt rs)
  unfolding append_images
  append_images-Counts c action [] = pure-Keeps tt
  append_images-Counts c action (r ∷ rs) =
      >>-Keeps (append_image-Counts c action _ _) (append_images-Counts c action rs)

  append_action-Counts :
      (c : Counters) (action : RowEventType) (rs : List BinlogRow)
      → Leads
          (Counts c)
          (Counts (update_action_stats action (length rs) c))
          (append_action w t schema action mark stmt rs)
  unfolding append_action
  append_action-Counts c action rs =
      >>-Leads (Keeps-Leads (append_images-Counts c action rs))
        (modify-Leads _ (λ (a, n) h. ap (update_action_stats action (length rs)) h))

  observed-Counts :
      (c : Counters) (event : RowEventType) (k : ℕ) (i : Images w)
      → Counts c i
      → Counts (observe_events event k c) (observe w event k i)
  observed-Counts c event k (a, n) h = ap (observe_events event k) h

  append_event-Counts :
      (c : Counters) (event : RowEventType) (rs : List BinlogRow)
      → Leads
          (Counts c)
          (Counts (count_event event (length rs) c))
          (append_event w t schema event mark stmt rs)
  unfolding append_event count_event
  append_event-Counts c delete_row_event rs =
      >>-Leads (append_action-Counts c delete_row_event rs)
        (modify-Leads _ (observed-Counts _ delete_row_event (length rs)))
  append_event-Counts c insert_row_event rs =
      >>-Leads (append_action-Counts c insert_row_event rs)
        (modify-Leads _ (observed-Counts _ insert_row_event (length rs)))
  append_event-Counts c update_row_event rs =
      >>-Leads (append_action-Counts c delete_row_event rs) (
        >>-Leads (append_action-Counts _ insert_row_event rs)
          (modify-Leads _ (observed-Counts _ update_row_event (length rs))))

  -- An event whose rows all reach the buffer adds to the appender's counters what the abstract count of
  -- events says.
  pub append_event-count_event :
      (event : RowEventType) (rs : List BinlogRow) (a : Appender B) (size : ℕ)
      → let out = append_event w t schema event mark stmt rs (a, size) in
        out.1 ≡ done tt → out.0.0.counters ≡ count_event event (length rs) a.counters
  append_event-count_event event rs a size q =
      (append_event-Counts a.counters event rs).leads (a, size) tt refl q
