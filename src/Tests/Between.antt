-- ===== src/Tests/Between.antt =====
-- A write between the daemon's copy of the bitmap of a device and its flip.
use Prim.{tt}
use greko.Base.{◌+◌, ◌*◌, ◌≡◌, refl, ◌||◌, false, some, [], ◌∷◌, arith, inl}
use greko.User.ServerBitmap.{Loading, load_from_memory_with, bitmap_server_destroy}
use greko.User.ServerBitmap.Between.{taken, make_requests-lost}
use greko.Kernel.Tracking.Marks.{touched}
use greko.Tests.Tracking.{bit_ops, a_write}
use greko.Tests.Control.{granted, one_device}
use greko.Tests.Daemons.{a_mapping, a_loading}

-- The write touches the bit 2.
make_requests-lost_example :
    (l : Loading) × (load_from_memory_with
        (taken bit_ops (one_device.bitmaps 0) (a_write ∷ []))
        false
        a_mapping
        0
        granted
        granted
        a_loading
      ≡ some l)
    × (l.kernel.memory (8 * 65536 + 2) ≡ (
        one_device.memory (8 * 65536 + 2)
        || touched (one_device.bitmaps 0) (a_write ∷ []) (8 * 65536 + 2)))
    × (l.kernel.memory (8 * l.ubitmap.bitmap_area + 2) ≡ one_device.memory (8 * 65536 + 2))
    × (bitmap_server_destroy l.ubitmap a_mapping l.kernel.memory (8 * 65536 + 2) ≡ false)
make_requests-lost_example =
    make_requests-lost bit_ops a_mapping 0 0 granted granted a_loading (a_write ∷ []) 2 refl refl
      refl refl (record { area = refl; size = refl; backup = refl; words = refl }) refl
      (inl (omega arith))
      (record {
        has_grain = omega arith;
        has_bits = omega arith;
        fits = omega arith;
        is_int = omega arith;
      })
      (omega arith) (omega arith, tt) (omega arith)
