-- ===== src/Persistence/Metadata.antt =====
-- persistence/include/persistence/metadata_manager.hpp: the bytes of the metadata file, which takes its
-- place by a rename once it is whole.
use flux_trade.Prelude.{
  ℕ, ◌^◌, ◌<◌, Bool, true, ◌&&◌, ◌==◌, Option, none, some, List, [], ◌++◌, ◌≡◌, refl, arith, ◌>>=◌,
  if◌then◌else◌, length,
}
use flux_trade.Prelude.Words.{u32_mod, u64_mod}
use flux_trade.Persistence.Bytes.{
  bytes_of, take_word, read_bytes, take_word-bytes_of, read_bytes-append,
}
use flux_trade.Persistence.Checksum.{crc32c, crc32c_below, initial_crc}

abbrev pub metadata_magic : ℕ
metadata_magic = 0x4D455441

abbrev pub metadata_version : ℕ
metadata_version = 1

abbrev pub metadata_size : ℕ
metadata_size = 40

pub record MetadataInfo : Type 0 where
  pub magic : ℕ
  pub version : ℕ
  pub flags : ℕ
  pub latest_snapshot_sequence : ℕ
  pub last_journal_sequence : ℕ
  pub current_journal_index : ℕ
  pub checksum : ℕ
  pub padding : ℕ

-- The bytes ahead of the checksum.
unfoldable pub described_bytes : MetadataInfo → List ℕ
described_bytes i =
    bytes_of 4 i.magic
    ++ (bytes_of 2 i.version
        ++ (bytes_of 2 i.flags
            ++ (bytes_of 8 i.latest_snapshot_sequence
                ++ (bytes_of 8 i.last_journal_sequence ++ bytes_of 8 i.current_journal_index))))

unfoldable pub metadata_bytes : MetadataInfo → List ℕ
metadata_bytes i = described_bytes i ++ (bytes_of 4 i.checksum ++ bytes_of 4 i.padding)

-- What `save` writes of an info.
unfoldable pub saved_info : MetadataInfo → MetadataInfo
saved_info i =
    let out = record i { magic = metadata_magic; version = metadata_version } in
    record out { checksum = crc32c (described_bytes out) initial_crc }

unfoldable pub save : MetadataInfo → List ℕ
save i = metadata_bytes (saved_info i)

unfoldable pub metadata_at : List ℕ → MetadataInfo
metadata_at bytes =
    let (magic, b1) = take_word 4 bytes in
    let (version, b2) = take_word 2 b1 in
    let (flags, b3) = take_word 2 b2 in
    let (latest_snapshot_sequence, b4) = take_word 8 b3 in
    let (last_journal_sequence, b5) = take_word 8 b4 in
    let (current_journal_index, b6) = take_word 8 b5 in
    let (checksum, b7) = take_word 4 b6 in
    let (padding, b8) = take_word 4 b7 in
    record {
      magic = magic;
      version = version;
      flags = flags;
      latest_snapshot_sequence = latest_snapshot_sequence;
      last_journal_sequence = last_journal_sequence;
      current_journal_index = current_journal_index;
      checksum = checksum;
      padding = padding;
    }

abbrev is_sound : MetadataInfo → Bool
is_sound i =
    i.magic == metadata_magic
    && i.version == metadata_version
    && i.checksum == crc32c (described_bytes i) initial_crc

-- `load` of the file's bytes.
unfoldable pub load : List ℕ → Option MetadataInfo
load file = do
  (bytes, rest) ← read_bytes metadata_size file
  let info = metadata_at bytes
  if is_sound info then some info else none

-- The numbers that the caller of `save` gives fit their fields.
pub record IsInfo (i : MetadataInfo) : Type 0 where
  pub flags : i.flags < 2 ^ 16
  pub latest_snapshot_sequence : i.latest_snapshot_sequence < u64_mod
  pub last_journal_sequence : i.last_journal_sequence < u64_mod
  pub current_journal_index : i.current_journal_index < u64_mod
  pub padding : i.padding < u32_mod

length-metadata_bytes : (i : MetadataInfo) → length (metadata_bytes i) ≡ metadata_size
unfolding metadata_bytes described_bytes bytes_of
length-metadata_bytes i = refl

metadata_bytes_assoc :
    (i : MetadataInfo)
    → metadata_bytes i
      ≡ bytes_of 4 i.magic
        ++ (bytes_of 2 i.version
            ++ (bytes_of 2 i.flags
                ++ (bytes_of 8 i.latest_snapshot_sequence
                    ++ (bytes_of 8 i.last_journal_sequence
                        ++ (bytes_of 8 i.current_journal_index
                            ++ (bytes_of 4 i.checksum ++ (bytes_of 4 i.padding ++ [])))))))
unfolding metadata_bytes described_bytes bytes_of
metadata_bytes_assoc i = refl

metadata_at-metadata_bytes :
    (i : MetadataInfo)
    → IsInfo i
    → i.magic < u32_mod
    → i.version < 2 ^ 16
    → i.checksum < u32_mod
    → metadata_at (metadata_bytes i) ≡ i
unfolding metadata_at
metadata_at-metadata_bytes i v magic version checksum =
    rw
      (
        metadata_bytes_assoc i,
        take_word-bytes_of 4 i.magic _ magic,
        take_word-bytes_of 2 i.version _ version,
        take_word-bytes_of 2 i.flags _ v.flags,
        take_word-bytes_of 8 i.latest_snapshot_sequence _ v.latest_snapshot_sequence,
        take_word-bytes_of 8 i.last_journal_sequence _ v.last_journal_sequence,
        take_word-bytes_of 8 i.current_journal_index _ v.current_journal_index,
        take_word-bytes_of 4 i.checksum _ checksum,
        take_word-bytes_of 4 i.padding _ v.padding,
      )
      refl

read_back :
    (i : MetadataInfo) → IsInfo i → metadata_at (metadata_bytes (saved_info i)) ≡ saved_info i
unfolding saved_info
read_back i v =
    metadata_at-metadata_bytes _
      (record {
        flags = v.flags;
        latest_snapshot_sequence = v.latest_snapshot_sequence;
        last_journal_sequence = v.last_journal_sequence;
        current_journal_index = v.current_journal_index;
        padding = v.padding;
      })
      (omega arith) (omega arith) (crc32c_below _ initial_crc)

sound : (i : MetadataInfo) → is_sound (saved_info i) ≡ true
unfolding saved_info described_bytes
sound i = ground arith

-- What is saved is loaded again, with the magic number, the version and the checksum that `save` sets,
-- for numbers that fit their fields, whatever follows in the file.
pub load-save :
    (i : MetadataInfo) (rest : List ℕ) → IsInfo i → load (save i ++ rest) ≡ some (saved_info i)
unfolding load save
load-save i rest v =
    rw
      (
        read_bytes-append metadata_size (metadata_bytes (saved_info i)) rest
            (length-metadata_bytes (saved_info i)),
        read_back i v,
        sound i,
      )
      refl
