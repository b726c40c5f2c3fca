-- ===== src/User/Client/Metadata/File.antt =====
-- The file that keeps a client's bitmap, `store_bitmap_to_disk` and `load_bitmap_from_disk` of
-- user/atdr_linux/atdr_bitmap_client.c.
use greko.Base.{
  ℕ, ◌+◌, ◌*◌, ◌/◌, ◌%◌, ◌^◌, ◌<◌, ◌≡◌, ◌≢◌, refl, sym, ap, ◌∙◌, Bool, true, false, Option, some,
  List, arith, if◌then◌else◌, ltb, update, update_self, Option-cases, inl, inr,
}
use greko.Base.Bits.{testbit, from_bits, from_bits-byte, testbit-from_bits}
use greko.Base.Text.{decimal-ne}
use greko.Memory.{Memory}
use greko.User.Types.{Bytes}
use greko.User.Server.Handlers.{bytes_of}
use greko.User.Client.{Daemon, System}
use greko.User.Client.Metadata.{
  bitmap_file, bits_of, area_of, store_bitmap_to_disk, load_bitmap_from_disk,
}

-- A file system with room for what is written, and whose files the daemon may read; `file` gives
-- the length and the bytes of a file. Then fopen with "w", fwrite and fclose leave what is written,
-- in the file of that name and no other, and fopen with "r" and fread give the bytes of a file that
-- is there. store_bitmap_to_disk does not look at the result of fwrite, so a full disk is excluded
-- here.
pub record FileLaws {W : Type 0} (sys : System W) : Type 0 where
  pub file : List ℕ → W → Option (ℕ × Bytes)
  pub stored :
      (name : List ℕ) (n : ℕ) (b : Bytes) (w : W)
      → (sys.store_file name n b w).0 ≡ true
      → file name (sys.store_file name n b w).1 ≡ some (n, b)
  pub others :
      (name other : List ℕ) (n : ℕ) (b : Bytes) (w : W)
      → other ≢ name
      → file other (sys.store_file name n b w).1 ≡ file other w
  pub loaded :
      (name : List ℕ) (n m : ℕ) (b c : Bytes) (w : W)
      → file name w ≡ some (m, c)
      → ((sys.load_file name n b w).0 ≡ true)
        × ((i : ℕ) → i < n → i < m → (sys.load_file name n b w).1 i ≡ c i)

byte_bit :
    (m : Memory) (i : ℕ) → (if ltb (i % 8) 8 then m (8 * (0 + i / 8) + i % 8) else false) ≡ m i
byte_bit m i =
    let at : 8 * (0 + i / 8) + i % 8 ≡ i = omega arith in
    let lt : ltb (i % 8) 8 ≡ true = ground arith in rw (lt, at) refl

-- The bits of the bytes of a bitmap are the bitmap.
bits_of-bytes_of :
    (m : Memory) (b : Bytes) (i : ℕ) → b (i / 8) ≡ bytes_of m 0 (i / 8) → bits_of b i ≡ m i
bits_of-bytes_of m b i e =
    let f : ℕ → Bool = λ j. m (8 * (0 + i / 8) + j) in
    let byte : b (i / 8) ≡ from_bits f 8 = e ∙ sym (from_bits-byte f) in
    ap (λ x. testbit x (i % 8)) byte ∙ testbit-from_bits f 8 (i % 8) ∙ byte_bit m i

bitmap_file-ne : (p q : ℕ) → p < 10 ^ 20 → q < 10 ^ 20 → p ≢ q → bitmap_file p ≢ bitmap_file q
bitmap_file-ne p q lp lq ne e = ne (decimal-ne p q lp lq (cc e))

module _ {W : Type 0} (sys : System W) where
  -- A load into an area, of a file that could be opened.
  pub load_bitmap_from_disk-loads :
      (pid : ℕ) (s : Daemon) (area : Memory) (bytes : Bytes) (w w1 : W)
      → (s.bitmap pid).bitmap_area ≡ some area
      → sys.load_file (bitmap_file pid) (s.bitmap pid).bitmap_size (bytes_of area 0) w
        ≡ (true, bytes, w1)
      → load_bitmap_from_disk sys pid s w
        ≡ some (
          record s {
            bitmap =
                update s.bitmap pid (record (s.bitmap pid) { bitmap_area = some (bits_of bytes) });
          },
          w1,
        )
  unfolding load_bitmap_from_disk
  load_bitmap_from_disk-loads pid s area bytes w w1 has e = rw (has) (rw e refl)

  -- What was stored had an area.
  stored-area :
      (pid : ℕ) (s : Daemon) (w w1 : W)
      → store_bitmap_to_disk sys pid s w ≡ some w1
      → (area : Memory) × ((s.bitmap pid).bitmap_area ≡ some area)
  unfolding store_bitmap_to_disk
  stored-area pid s w w1 e = elim (Option-cases (s.bitmap pid).bitmap_area) [
    | inl n ↦ ground arith
    | inr a ↦ a
  ]

module _ {W : Type 0} (sys : System W) (laws : FileLaws sys) where
  -- What a store leaves in the file of a partner id.
  pub store_bitmap_to_disk-file :
      (pid : ℕ) (s : Daemon) (w w1 : W)
      → store_bitmap_to_disk sys pid s w ≡ some w1
      → laws.file (bitmap_file pid) w1
        ≡ some ((s.bitmap pid).bitmap_size, bytes_of (area_of (s.bitmap pid).bitmap_area) 0)
  unfolding store_bitmap_to_disk
  store_bitmap_to_disk-file pid s w w1 e =
      let b = s.bitmap pid in
      let (area, has) = stored-area sys pid s w w1 e in
      let bytes = bytes_of area 0 in
      let done = sys.store_file (bitmap_file pid) b.bitmap_size bytes w in
      let ok : done.0 ≡ true = grind arith in
      let last : done.1 ≡ w1 = grind arith in
      ap (laws.file (bitmap_file pid)) (sym last)
      ∙ laws.stored (bitmap_file pid) b.bitmap_size bytes w ok
      ∙ ap (λ a. some (b.bitmap_size, bytes_of (area_of a) 0)) (sym has)

  -- A store leaves the files of the other partner ids as they were.
  pub store_bitmap_to_disk-other :
      (pid other : ℕ) (s : Daemon) (w w1 : W)
      → pid < 10 ^ 20
      → other < 10 ^ 20
      → other ≢ pid
      → store_bitmap_to_disk sys pid s w ≡ some w1
      → laws.file (bitmap_file other) w1 ≡ laws.file (bitmap_file other) w
  unfolding store_bitmap_to_disk
  store_bitmap_to_disk-other pid other s w w1 lp lo ne e =
      let b = s.bitmap pid in
      let bytes = bytes_of (area_of b.bitmap_area) 0 in
      let last : (sys.store_file (bitmap_file pid) b.bitmap_size bytes w).1 ≡ w1 = grind arith in
      ap (laws.file (bitmap_file other)) (sym last)
      ∙ laws.others (bitmap_file pid) (bitmap_file other) b.bitmap_size bytes w
          (bitmap_file-ne other pid lo lp ne)

  -- A load gives the bits of the file.
  load_bitmap_from_disk-gives :
      (pid : ℕ) (m : Memory) (n : ℕ) (s : Daemon) (w : W) (old : Memory)
      → (s.bitmap pid).bitmap_area ≡ some old
      → laws.file (bitmap_file pid) w ≡ some (n, bytes_of m 0)
      → (s.bitmap pid).bitmap_size ≡ n
      → (t : Daemon) × (w1 : W) × (load_bitmap_from_disk sys pid s w ≡ some (t, w1))
        × ((i : ℕ) → i < 8 * n → area_of (t.bitmap pid).bitmap_area i ≡ m i)
  unfolding load_bitmap_from_disk
  load_bitmap_from_disk-gives pid m n s w old has e size =
      let b = s.bitmap pid in
      let before = bytes_of old 0 in
      let got = sys.load_file (bitmap_file pid) b.bitmap_size before w in
      let (ok, same) = laws.loaded (bitmap_file pid) b.bitmap_size n before (bytes_of m 0) w e in
      (
        record s { bitmap = update s.bitmap pid (record b { bitmap_area = some (bits_of got.1) }) },
        got.2,
        load_bitmap_from_disk-loads sys pid s old got.1 w got.2 has
            (ap (λ t. (t, got.1, got.2)) ok),
        λ i lt.
            rw (update_self s.bitmap pid (record b { bitmap_area = some (bits_of got.1) }))
              (bits_of-bytes_of m got.1 i (same (i / 8) (omega (arith, size, lt)) (omega arith))),
      )

  -- The stores of other partner ids that come in between.
  pub data Stores (pid : ℕ) : W → W → Type 0 where
    no_store : (w : W) → Stores pid w w
    one_more :
        (other : ℕ) (s : Daemon) (w w1 w2 : W)
        → other < 2 ^ 32
        → other ≢ pid
        → store_bitmap_to_disk sys other s w ≡ some w1
        → Stores pid w1 w2
        → Stores pid w w2

  Stores-file :
      (pid : ℕ) (w w1 : W)
      → pid < 2 ^ 32
      → Stores pid w w1
      → laws.file (bitmap_file pid) w1 ≡ laws.file (bitmap_file pid) w
  Stores-file pid w w2 lt (no_store _) = refl
  Stores-file pid w w2 lt (one_more other s _ w1 _ lo ne e rest) =
      Stores-file pid w1 w2 lt rest
      ∙ store_bitmap_to_disk-other other pid s w w1 (omega arith) (omega arith) (λ x. ne (sym x)) e

  -- On a file system with room for what is written, and whose files may be read: a bitmap that was
  -- stored under a partner id of 32 bits is loaded again bit by bit into an allocated area of the
  -- same size, whatever other partner ids stored in between.
  pub load-store_bitmap :
      (pid : ℕ) (s u : Daemon) (w w1 w2 : W)
      → pid < 2 ^ 32
      → store_bitmap_to_disk sys pid s w ≡ some w1
      → Stores pid w1 w2
      → (before : Memory) → (u.bitmap pid).bitmap_area ≡ some before
      → (u.bitmap pid).bitmap_size ≡ (s.bitmap pid).bitmap_size
      → (t : Daemon) × (w3 : W) × (load_bitmap_from_disk sys pid u w2 ≡ some (t, w3))
        × ((i : ℕ)
            → i < 8 * (s.bitmap pid).bitmap_size
            → area_of (t.bitmap pid).bitmap_area i ≡ area_of (s.bitmap pid).bitmap_area i)
  load-store_bitmap pid s u w w1 w2 lt stored between before has size =
      load_bitmap_from_disk-gives pid (area_of (s.bitmap pid).bitmap_area)
        (s.bitmap pid).bitmap_size u w2 before has
        (Stores-file pid w1 w2 lt between ∙ store_bitmap_to_disk-file pid s w w1 stored) size
