-- ===== src/Replication/Tests.antt =====
-- Rounds over a journal of three records, with the second file missing and without.
use lane_broker.Prelude.{
  ℕ, suc, ◌≡◌, refl, true, false, not, none, some, List, [], ◌++◌, arith, ◌==◌, length, All,
}
use lane_broker.Journal.Run.{Represents, Represents-whole}
use lane_broker.Journal.Bytes.{Fits}
use lane_broker.Journal.Lines.{Numbered, encode, located}
use lane_broker.Journal.Log.{Journal, iterate, line_of}
use lane_broker.Journal.{
  Located, Rec, iterate_journal, last_end, last_newline, out_of_order, read_journal_from,
  read_lines,
}
use lane_broker.Journal.Samples.{codec, one_rec, two_recs}
use lane_broker.Replication.{
  Answers, ReplicationState, committed_deletion, drain, drained, put_object, round, ship_as,
  ship_entries, ship_object, stored, threw, verified,
}
use lane_broker.Replication.Round.{Fine, round-drained}

abbrev three_recs : List Rec
three_recs = one_rec ++ two_recs

abbrev three : Journal
three = record {
  file = encode codec three_recs;
  committed_offset = length (encode codec three_recs);
  committed_seq = 3;
  track_pending = true;
  pending = [];
  broken = false;
}

abbrev answers_without : (missing : ℕ) → Located → Answers
answers_without missing l = record {
  exists = not (l.rec.seq == missing);
  put = stored;
  blob_answers = λ sha. record { hash = none; stored_again = false; seen = none };
  put_again = false;
  seen = some (l.rec.entry.sha, l.rec.entry.size);
  applied = none;
  terminal_here = false;
  job_value = none;
  owner = true;
}

abbrev first_shipped : ReplicationState
first_shipped = record {
  replicated_seq = 1;
  replicated_offset = 8;
  failed_rounds = 0;
  last_round_at = none;
}

three_fit : Fits codec 9 three_recs
unfolding line_of
three_fit = omega arith

three_recs-Numbered : Numbered 1 three_recs
three_recs-Numbered = (refl, (refl, (refl, tt)))

three-Represents : Represents codec 9 three (one_rec ++ two_recs)
three-Represents =
    Represents-whole codec 9 three three_recs three_recs-Numbered three_fit refl refl refl

first_offset : first_shipped.replicated_offset ≡ length (encode codec one_rec)
unfolding encode line_of
first_offset = refl

-- The third file is missing and nothing deletes it: the watermark stays behind the second.
blocked :
    round codec 9 three (answers_without 3) true 77 30 first_shipped
    ≡ some (
      record {
        replicated_seq = 2;
        replicated_offset = 16;
        failed_rounds = 1;
        last_round_at = some 77;
      },
      threw,
    )
unfolding round drain ship_entries ship_as ship_object committed_deletion put_object verified
    iterate iterate_journal read_journal_from read_lines out_of_order last_newline last_end encode
    line_of
blocked = refl

two_recs-Fine :
    All
      (Fine codec 9 three (answers_without 9))
      (located codec (length (encode codec one_rec)) two_recs)
unfolding ship_as ship_object put_object verified located
two_recs-Fine = ((refl, refl), ((refl, refl), tt))

round-drained_example :
    (after : ReplicationState) × (round codec 9 three
        (answers_without 9)
        true
        77
        (suc (length three.file))
        first_shipped
      ≡ some (after, drained))
    × (after.replicated_seq ≡ three.committed_seq)
    × (after.replicated_offset ≡ three.committed_offset)
round-drained_example =
    round-drained codec 9 three (answers_without 9) one_rec two_recs first_shipped three-Represents
      refl first_offset 77 two_recs-Fine
