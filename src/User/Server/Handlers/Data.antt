-- ===== src/User/Server/Handlers/Data.antt =====
-- Answering the requests for chunks.
use greko.Base.{◌≡◌, ap, if◌then◌else◌}
use greko.User.Types.{Header, IoState, buf_size_in_bytes}
use greko.User.Posix.{Posix}
use greko.User.IoEngine.{chunk_read_server}
use greko.User.Server.{Server}
use greko.User.Server.Handlers.{get_data, answer, start_lba, is_released_io}

module _ {W : Type 0} (ops : Posix W) where
  -- After the end of a resynchronisation a request for a chunk is not answered at all.
  pub get_data-released :
      (h : Header) (s : Server) (w : W)
      → s.io h.partner_id ≡ IoState.released
      → get_data ops h s w ≡ (h, s, w)
  unfolding get_data
  get_data-released h s w e =
      ap
        (λ i.
          if is_released_io ops i
          then (h, s, w)
          else answer ops h s (
              chunk_read_server ops (s.disk h.partner_id).disk_fd (λ i. 0) buf_size_in_bytes
                (start_lba ops h (s.sizes h.partner_id)) w))
        e
