-- ===== src/Persistence/Records.antt =====
-- The records of a journal file, written and read back.
use flux_trade.Prelude.{
  ℕ, zero, suc, ◌^◌, ◌<◌, ◌≤◌, true, false, Option, none, some, List, [], ◌∷◌, ◌++◌, ◌≡◌, refl, ap,
  sym, ◌∙◌, subst, arith, All, leb, length, append_assoc, Bool-cases, inl, inr,
}
use flux_trade.Prelude.Words.{u32_mod, u64_mod}
use flux_trade.Book.State.{LimitOrderBook}
use flux_trade.Persistence.Bytes.{bytes_of, read_bytes, take_word-bytes_of, read_bytes-append}
use flux_trade.Persistence.Checksum.{crc32c_below}
use flux_trade.Persistence.Journal.{
  WalRecordHeader, LogEntry, checked_bytes, record_checksum, log_entry, max_payload,
}
use flux_trade.Persistence.Disk.{record_bytes, record_header_size}
use flux_trade.Persistence.Replay.{
  record_header_at, read_record, apply_payload, Replayed, replay_records,
}

-- An entry whose numbers are of the widths of its fields, with its payload's length and its checksum.
pub record IsEntry (e : LogEntry) : Type 0 where
  pub sequence : e.header.sequence < u64_mod
  pub timestamp : e.header.timestamp < u64_mod
  pub message_type : e.header.message_type < 2 ^ 16
  pub payload_length : length e.payload ≡ e.header.payload_length
  pub fits : e.header.payload_length ≤ max_payload
  pub checksum : record_checksum e.header e.payload ≡ e.header.checksum

record_checksum_below :
    (h : WalRecordHeader) (payload : List ℕ) → record_checksum h payload < u32_mod
unfolding record_checksum
record_checksum_below h payload = crc32c_below payload _

-- What MemoryJournal::append queues.
pub log_entry-IsEntry :
    (sequence timestamp msg_type : ℕ) (payload : List ℕ)
    → sequence < u64_mod
    → timestamp < u64_mod
    → msg_type < 2 ^ 16
    → length payload ≤ max_payload
    → IsEntry (log_entry sequence timestamp msg_type payload)
unfolding log_entry record_checksum checked_bytes
log_entry-IsEntry sequence timestamp msg_type payload hs ht hm hp = record {
  sequence = hs;
  timestamp = ht;
  message_type = hm;
  payload_length = refl;
  fits = hp;
  checksum = refl;
}

header_bytes : WalRecordHeader → List ℕ
header_bytes h = checked_bytes h ++ bytes_of 4 h.checksum

length-header_bytes : (h : WalRecordHeader) → length (header_bytes h) ≡ record_header_size
unfolding header_bytes checked_bytes bytes_of
length-header_bytes h = refl

header_bytes_assoc :
    (h : WalRecordHeader)
    → header_bytes h
      ≡ bytes_of 8 h.sequence
        ++ (bytes_of 8 h.timestamp
            ++ (bytes_of 2 h.message_type
                ++ (bytes_of 2 h.payload_length ++ (bytes_of 4 h.checksum ++ []))))
unfolding header_bytes checked_bytes bytes_of
header_bytes_assoc h = refl

record_header_at-header_bytes :
    (e : LogEntry) → IsEntry e → record_header_at (header_bytes e.header) ≡ e.header
unfolding record_header_at
record_header_at-header_bytes e v =
    let h = e.header in
    let word : h.checksum < u32_mod =
      subst (λ c. c < u32_mod) v.checksum (record_checksum_below h e.payload) in
    rw
      (
        header_bytes_assoc h,
        take_word-bytes_of 8 h.sequence _ v.sequence,
        take_word-bytes_of 8 h.timestamp _ v.timestamp,
        take_word-bytes_of 2 h.message_type _ v.message_type,
        take_word-bytes_of 2 h.payload_length _ (omega (arith, v.fits)),
        take_word-bytes_of 4 h.checksum _ word,
      )
      refl

read_record-record_bytes :
    (e : LogEntry) (rest : List ℕ)
    → IsEntry e
    → read_record (record_bytes e ++ rest) ≡ some ((e.header, e.payload), rest)
unfolding read_record header_bytes
read_record-record_bytes e rest v =
    rw
      (
        append_assoc (header_bytes e.header) e.payload rest,
        read_bytes-append record_header_size (header_bytes e.header) (e.payload ++ rest)
            (length-header_bytes e.header),
        record_header_at-header_bytes e v,
        read_bytes-append e.header.payload_length e.payload rest v.payload_length,
      )
      refl

abbrev pub all_records : List LogEntry → List ℕ
all_records [] = []
all_records (e ∷ es) = record_bytes e ++ all_records es

pub all_records-append :
    (es fs : List LogEntry) → all_records (es ++ fs) ≡ all_records es ++ all_records fs
all_records-append [] fs = refl
all_records-append (e ∷ es) fs =
    ap (λ bs. record_bytes e ++ bs) (all_records-append es fs)
    ∙ sym (append_assoc (record_bytes e) (all_records es) (all_records fs))

-- Each entry in turn, but for those with a sequence number that has been reached before.
abbrev pub apply_entries : List LogEntry → LimitOrderBook → ℕ → Option (LimitOrderBook × ℕ)
apply_entries [] book seq = some (book, seq)
apply_entries (e ∷ es) book seq = elim (leb e.header.sequence seq) [
  | true ↦ apply_entries es book seq
  | false ↦ elim (apply_payload e.header e.payload book) [
    | none ↦ none
    | some book' ↦ apply_entries es book' e.header.sequence
  ]
]

-- The rest of the entries, where the first has been applied.
abbrev pub apply_rest : List LogEntry → ℕ → Option LimitOrderBook → Option (LimitOrderBook × ℕ)
apply_rest es seq none = none
apply_rest es seq (some book) = apply_entries es book seq

abbrev pub outcome : Option (LimitOrderBook × ℕ) → Replayed
outcome none = Replayed.undefined
outcome (some (book, seq)) = Replayed.finished true book seq

read_record-nil : read_record [] ≡ none
unfolding read_record read_bytes
read_record-nil = refl

-- A round of the loop, by what it finds.
module _ (fuel : ℕ) (bytes : List ℕ) (book : LimitOrderBook) (seq : ℕ) where
  replay_end :
      read_record bytes ≡ none
      → replay_records (suc fuel) bytes book seq ≡ Replayed.finished true book seq
  unfolding replay_records
  replay_end e = ground arith

  abbrev after : List ℕ → ℕ → Option LimitOrderBook → Replayed
  after rest seq' none = Replayed.undefined
  after rest seq' (some book') = replay_records fuel rest book' seq'

  module _ (header : WalRecordHeader) (payload rest : List ℕ)
      (read : read_record bytes ≡ some ((header, payload), rest))
      (sound : record_checksum header payload ≡ header.checksum) where
    replay_skip :
        leb header.sequence seq ≡ true
        → replay_records (suc fuel) bytes book seq ≡ replay_records fuel rest book seq
    unfolding replay_records
    replay_skip e = ground arith

    replay_apply :
        leb header.sequence seq ≡ false
        → replay_records (suc fuel) bytes book seq
          ≡ after rest header.sequence (apply_payload header payload book)
    unfolding replay_records
    replay_apply e = ground arith

after-outcome :
    (fuel : ℕ) (bytes : List ℕ) (book : LimitOrderBook) (seq seq' : ℕ) (es : List LogEntry)
    (p : Option LimitOrderBook)
    → ((book' : LimitOrderBook)
        → replay_records fuel (all_records es) book' seq' ≡ outcome (apply_entries es book' seq'))
    → after fuel bytes book seq (all_records es) seq' p ≡ outcome (apply_rest es seq' p)
after-outcome fuel bytes book seq seq' es none h = refl
after-outcome fuel bytes book seq seq' es (some book') h = h book'

pub apply_entries_old :
    (e : LogEntry) (es : List LogEntry) (book : LimitOrderBook) (seq : ℕ)
    → leb e.header.sequence seq ≡ true
    → apply_entries (e ∷ es) book seq ≡ apply_entries es book seq
apply_entries_old e es book seq h = ground arith

pub apply_entries_new :
    (e : LogEntry) (es : List LogEntry) (book : LimitOrderBook) (seq : ℕ)
    → leb e.header.sequence seq ≡ false
    → apply_entries (e ∷ es) book seq
      ≡ apply_rest es e.header.sequence (apply_payload e.header e.payload book)
apply_entries_new e es book seq h = ground arith

-- Where the bytes are whole records with their checksums, the loop over the records of a file applies
-- each entry in turn, but for those with a sequence number that has been reached before, and then ends
-- well; one round more than there are records is enough.
pub replay_records-all_records :
    (fuel : ℕ) (es : List LogEntry) (book : LimitOrderBook) (seq : ℕ)
    → length es < fuel
    → All IsEntry es
    → replay_records fuel (all_records es) book seq ≡ outcome (apply_entries es book seq)
replay_records-all_records zero es book seq h v = absurd (omega arith)
replay_records-all_records (suc fuel) [] book seq h v = replay_end fuel [] book seq read_record-nil
replay_records-all_records (suc fuel) (e ∷ es) book seq h (v, vs) =
    let read = read_record-record_bytes e (all_records es) v in
    elim (Bool-cases (leb e.header.sequence seq)) [
      | inl old ↦
          replay_skip fuel _ book seq e.header e.payload (all_records es) read v.checksum old
          ∙ replay_records-all_records fuel es book seq (omega arith) vs
          ∙ ap outcome (sym (apply_entries_old e es book seq old))
      | inr new ↦
          replay_apply fuel _ book seq e.header e.payload (all_records es) read v.checksum new
          ∙ after-outcome fuel (record_bytes e ++ all_records es) book seq e.header.sequence es _
              (λ book'. replay_records-all_records fuel es book' e.header.sequence (omega arith) vs)
          ∙ ap outcome (sym (apply_entries_new e es book seq new))
    ]
