-- ===== src/Journal/Tests.antt =====
-- A journal whose second append is torn by a crash, with a simple text for the records.
use lane_broker.Prelude.{
  ◌+◌, ◌≡◌, refl, ap, ◌∙◌, true, false, none, some, List, [], ◌∷◌, ◌++◌, arith, length,
}
use lane_broker.Journal.Tracked.{first_above}
use lane_broker.Journal.{
  Located, Rec, iterate_journal, last_end, last_newline, ok, out_of_order, read_journal_from,
  read_lines,
}
use lane_broker.Journal.Log.{
  Journal, Watermark, append, drop_torn_tail, durable, is_torn, iterate, left, line_of,
  oldest_pending_created_at, open_journal, pending_above, pending_of, rolled_back, second_last,
  split_lines, tail_seq,
}
use lane_broker.Journal.Samples.{codec, fresh, one_rec, put_blob, two_recs, unmarked}
use lane_broker.Journal.Lines.{Follows, Numbered, encode, located}
use lane_broker.Journal.Bytes.{Fits}
use lane_broker.Journal.Reading.{iterate_journal-located}
use lane_broker.Journal.Pending.{oldest_pending-first_above_written}
use lane_broker.Journal.Run.{
  FitsRun, JournalEvent, journal_event, journal_run, next_rec, restart, write,
}
use lane_broker.Journal.Acknowledged.{journal_run-acknowledged, journal_run-durable}

fresh_opened : open_journal codec 8 true unmarked none ≡ ok fresh
unfolding open_journal tail_seq pending_above iterate_journal read_journal_from
fresh_opened = refl

-- One record, a crash three bytes into the next, an append that is rolled back.
abbrev troubles : List JournalEvent
troubles =
    write true unmarked (put_blob 1) durable
    ∷ write true unmarked (put_blob 2) (left 3)
    ∷ write true unmarked (put_blob 2) durable
    ∷ restart true unmarked
    ∷ write true unmarked (put_blob 3) rolled_back
    ∷ []

abbrev then_restart : List JournalEvent
then_restart = restart true unmarked ∷ []

after_troubles : journal_run codec 8 troubles fresh ≡ record {
  file = line_of codec (record { seq = 1; entry = put_blob 1 });
  committed_offset = 8;
  committed_seq = 1;
  track_pending = true;
  pending = (1, 1001) ∷ [];
  broken = false;
}
unfolding journal_run journal_event append open_journal drop_torn_tail is_torn last_newline tail_seq
    split_lines second_last pending_above iterate_journal read_journal_from read_lines out_of_order
    line_of last_end pending_of
after_troubles = refl

two_fit : Fits codec 9 two_recs
unfolding line_of
two_fit = omega arith

two_follow : Follows none two_recs
unfolding out_of_order
two_follow = (refl, (refl, tt))

troubles_fit :
    FitsRun codec 8 (troubles ++ (write true unmarked (put_blob 4) durable ∷ then_restart)) fresh
unfolding line_of journal_event append
troubles_fit = omega arith

durable_fit : FitsRun codec 8 (troubles ++ then_restart) fresh
unfolding line_of journal_event append
durable_fit = omega arith

journal_run-durable_example :
    (rs more : List Rec) × (iterate codec 8 0 (journal_run codec 8 troubles fresh)
      ≡ ok (located codec 0 rs))
    × (iterate codec 8 0 (journal_run codec 8 (troubles ++ then_restart) fresh)
        ≡ ok (located codec 0 (rs ++ more)))
    × Numbered 1 (rs ++ more)
journal_run-durable_example =
    journal_run-durable codec 8 true unmarked fresh fresh_opened troubles then_restart durable_fit

abbrev fourth : Located
fourth = record { rec = record { seq = 2; entry = put_blob 4 }; offset = 8; end = 16 }

fourth_told :
    (append codec true unmarked (put_blob 4) durable (journal_run codec 8 troubles fresh)).1
    ≡ ok fourth
unfolding append line_of
fourth_told = ap (λ j. (append codec true unmarked (put_blob 4) durable j).1) after_troubles ∙ refl

journal_run-acknowledged_example :
    (before after : List Located) × (iterate codec 8 0 (
        journal_run codec 8
          (troubles ++ (write true unmarked (put_blob 4) durable ∷ then_restart))
          fresh)
      ≡ ok (before ++ (fourth ∷ after)))
    × (fourth.rec.entry ≡ put_blob 4)
journal_run-acknowledged_example =
    journal_run-acknowledged codec 8 true unmarked fresh fresh_opened troubles then_restart true
      unmarked (put_blob 4) durable fourth troubles_fit fourth_told

iterate_journal-located_example :
    iterate_journal codec
      (some (encode codec one_rec ++ (encode codec two_recs ++ (11 ∷ []))))
      9
      (some (length (encode codec one_rec) + length (encode codec two_recs)))
      3
      (length (encode codec one_rec))
    ≡ ok (located codec (length (encode codec one_rec)) two_recs)
iterate_journal-located_example =
    iterate_journal-located codec 3 one_rec two_recs (11 ∷ []) 9 (omega arith) two_fit two_follow

abbrev after_one : Watermark
after_one = record { seq = 1; offset = 8 }

abbrev after_two : Watermark
after_two = record { seq = 2; offset = 16 }

three_fit : Fits codec 9 (one_rec ++ two_recs)
unfolding line_of
three_fit = omega arith

after_one_ends : after_one.offset ≡ length (encode codec one_rec)
unfolding encode line_of
after_one_ends = refl

oldest_pending-first_above_written_example :
    (j : Journal) × (open_journal codec 9 true after_one
        (some (encode codec (one_rec ++ two_recs) ++ (11 ∷ 12 ∷ [])))
      ≡ ok j)
    × ((oldest_pending_created_at after_two
          (append codec true after_one (put_blob 4) durable j).0).1
        ≡ first_above 2 ((one_rec ++ two_recs) ++ (next_rec (put_blob 4) j ∷ [])))
oldest_pending-first_above_written_example =
    oldest_pending-first_above_written codec 9 after_one after_one after_two one_rec two_recs
      (11 ∷ 12 ∷ []) (put_blob 4) (refl, (refl, (refl, tt))) three_fit (refl, (refl, tt))
      (omega arith) refl after_one_ends (omega arith) (omega arith)
