-- ===== src/Terminal/Tests.antt =====
-- Runs of the scanner and of a snapshot, and the theorems at concrete inputs.
use devhatch.Prelude.{zero, suc, ℕ, true, false, ◌≡◌, refl, List, [], ◌∷◌, ◌++◌, some, none}
use devhatch.Terminal.Lossy.{is_utf8, completes, from_utf8_lossy, replacement, lossy_from}
use devhatch.Terminal.Scan.{fresh, scan, osc_escape, csi}
use devhatch.Terminal.State.{
  Csi, Vt100, new, process, resize, snapshot, sequence, default_modes, unhandled_csi,
}
use devhatch.Terminal.Resume.{IsPending, Resumes, Resumes-scan, IsPending-scan}
use devhatch.Terminal.Feeds.{Feed, bytes, size, received, feed_all, snapshot-feed_all_unavailable}
use devhatch.Terminal.Snapshot.{scan-snapshot-feed_all, unicode, get_mode, get_mode-unhandled_csi}

-- A parser that keeps its size, shows nothing, and panics on the byte 0.
abbrev tiny : Vt100
tiny = record {
  Parser = ℕ;
  new_parser = λ rows cols. cols;
  process_bytes = λ p b. elim b [
    | [] ↦ some (p, [])
    | x ∷ rest ↦ elim x [ zero ↦ none | suc n ↦ some (p, []) ]
  ];
  set_size = λ p rows cols. some cols;
  alternate_screen = λ p. true;
  state_formatted = λ p. sequence "[H";
}

half_csi :
    scan fresh (0x41 ∷ sequence "[2;")
    ≡ record { sequence_state = csi; pending_sequence = sequence "[2;" }
unfolding scan
half_csi = refl

half_osc :
    scan fresh (sequence "]0;t" ++ 0x1b ∷ [])
    ≡ record { sequence_state = osc_escape; pending_sequence = sequence "]0;t" ++ 0x1b ∷ [] }
unfolding scan
half_osc = refl

complete_csi : scan fresh (sequence "[2;1H" ++ sequence "[0m") ≡ fresh
unfolding scan
complete_csi = refl

tiny_complete : (p : ℕ) → scan fresh (sequence "[H") ≡ fresh
unfolding scan
tiny_complete p = refl

abbrev feeds : List Feed
feeds = bytes (sequence "[1") ∷ size 3 1 ∷ bytes (0x32 ∷ []) ∷ []

available : (feed_all tiny (new tiny 2 12) feeds).terminal_snapshot_unavailable ≡ false
unfolding feed_all new process resize
available = refl

tiny_text : (p : ℕ) → is_utf8 (sequence "[H") ≡ true
unfolding completes
tiny_text p = refl

pending_text : is_utf8 (scan fresh (received feeds)).pending_sequence ≡ true
unfolding completes scan
pending_text = refl

-- A title cut inside `é` is not what the snapshot ends with.
cut_title : from_utf8_lossy (sequence "]0;t" ++ 0xc3 ∷ []) ≡ sequence "]0;t" ++ replacement
unfolding lossy_from
cut_title = refl

-- One replacement for the beginning of a character, one for each byte that begins none.
cut_characters :
    from_utf8_lossy (0xe2 ∷ 0x82 ∷ 0x41 ∷ 0xff ∷ 0x80 ∷ 0xc3 ∷ 0xa9 ∷ 0xed ∷ 0xa0 ∷ [])
    ≡ replacement
      ++ (0x41 ∷ (replacement ++ (replacement ++ (0xc3 ∷ 0xa9 ∷ (replacement ++ replacement)))))
unfolding lossy_from
cut_characters = refl

scan-snapshot-feed_all_example :
    scan fresh (snapshot tiny (feed_all tiny (new tiny 2 12) feeds) [])
    ≡ scan fresh (received feeds)
scan-snapshot-feed_all_example =
    scan-snapshot-feed_all tiny tiny_complete tiny_text 2 12 feeds [] available pending_text

snapshot-feed_all_unavailable_example :
    snapshot tiny (feed_all tiny (new tiny 2 12) (bytes (0 ∷ []) ∷ feeds)) (0x41 ∷ []) ≡ 0x41 ∷ []
unfolding new
snapshot-feed_all_unavailable_example =
    snapshot-feed_all_unavailable tiny (new tiny 2 12) (bytes (0 ∷ [])) feeds (0x41 ∷ []) refl

Resumes-scan_example : Resumes (scan fresh (sequence "]0;t" ++ 0x1b ∷ []))
Resumes-scan_example = Resumes-scan (sequence "]0;t" ++ 0x1b ∷ [])

IsPending-scan_example : IsPending (0x41 ∷ sequence "[2") (scan fresh (0x41 ∷ sequence "[2"))
IsPending-scan_example = IsPending-scan (0x41 ∷ sequence "[2")

abbrev turn_on : Csi
turn_on = record {
  first_intermediate = some 0x3f;
  params = (1004 ∷ []) ∷ (2027 ∷ []) ∷ [];
  action = 0x68;
}

get_mode-unhandled_csi_example : get_mode unicode (unhandled_csi default_modes turn_on) ≡ true
get_mode-unhandled_csi_example = get_mode-unhandled_csi unicode default_modes turn_on
