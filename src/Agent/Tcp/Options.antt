-- ===== src/Agent/Tcp/Options.antt =====
-- The options of a connect message, and the sizes of the buffers.
use libnice4android.Prelude.{
  ℕ, zero, suc, ◌+◌, ◌*◌, ◌/◌, ◌%◌, ◌^◌, Bool, true, false, ◌||◌, Option, none, some, List, [], ◌∷◌,
  ◌++◌, ltb, ◌==◌, if◌then◌else◌, ◌>>=◌, drop, get_elem?,
}
use libnice4android.Agent.Fifo.{set_capacity, get_write_remaining}
use libnice4android.Agent.Tcp.{
  Socket, opt_eol, opt_noop, opt_wnd_scale, opt_fin_ack, ctl_connect, default_rcv_buf_size,
}

-- The loop of `resize_receive_buffer`: the scale, and the size shifted right by it. A `guint32` is
-- shifted at most 16 times.
scale_of : ℕ → ℕ → ℕ → ℕ × ℕ
scale_of zero scale size = (scale, size)
scale_of (suc fuel) scale size =
    let rest = scale_of fuel (scale + 1) (size / 2) in
    if ltb 0xFFFF size then rest else (scale, size)

unfoldable pub resize_receive_buffer : Socket → ℕ → Option Socket
unfolding scale_of
resize_receive_buffer s new_size = if s.rbuf_len == new_size then some s else (do
  let scaled = scale_of 32 0 new_size
  let size = scaled.1 * 2 ^ scaled.0
  (result, rbuf) ← set_capacity s.rbuf size
  if result
      then some (record s {
        rbuf = rbuf;
        rbuf_len = size;
        rwnd_scale = scaled.0;
        ssthresh = size;
        rcv_wnd = get_write_remaining rbuf % 2 ^ 32;
      })
      else none)

unfoldable pub resize_send_buffer : Socket → ℕ → Option Socket
resize_send_buffer s new_size = do
  (result, sbuf) ← set_capacity s.sbuf new_size
  some (record s { sbuf_len = new_size; sbuf = sbuf })

apply_window_scale_option : Socket → ℕ → Socket
apply_window_scale_option s scale_factor = record s { swnd_scale = scale_factor }

apply_fin_ack_option : Socket → Socket
apply_fin_ack_option s = record s { support_fin_ack = true }

unfoldable pub apply_option : Socket → ℕ → List ℕ → ℕ → Option Socket
unfolding apply_window_scale_option apply_fin_ack_option
apply_option s kind bytes len =
    if kind == opt_wnd_scale
    then (if len == 1
        then (do scale_factor ← get_elem? bytes 0; some (apply_window_scale_option s scale_factor))
        else some s)
    else (if kind == opt_fin_ack then some (apply_fin_ack_option s) else some s)

-- How the loop over the options ends: with `return`, or behind the loop, with the two flags.
pub data Parsed : Type 0 where
  returned : Socket → Parsed
  finished : Socket → Bool → Bool → Parsed

-- A round takes at least one byte, so a fuel of `len + 1` is enough. The sums are below 2^32, since a
-- packet has at most 65535 bytes.
unfoldable pub options_loop : ℕ → Socket → List ℕ → ℕ → ℕ → Bool → Bool → Option Parsed
options_loop zero s bytes len pos scaling fin = none
options_loop (suc fuel) s bytes len pos scaling fin =
    if ltb pos len
    then (if ltb len (pos + 1) then some (returned s) else (do
      kind ← get_elem? bytes pos
      let next = options_loop fuel s bytes len (pos + 1) scaling fin
      if kind == opt_eol
          then some (finished s scaling fin)
          else (if kind == opt_noop
              then next
              else (if ltb len (pos + 2) then some (returned s) else (do
                opt_len ← get_elem? bytes (pos + 1)
                if ltb len (pos + 2 + opt_len) then some (returned s) else (do
                  s1 ← apply_option s kind (drop (pos + 2) bytes) opt_len
                  options_loop fuel s1 bytes len (pos + 2 + opt_len)
                      (scaling || kind == opt_wnd_scale) (fin || kind == opt_fin_ack)))))))
    else some (finished s scaling fin)

-- Without the window scale option the buffer is set back to its default size, if it was scaled.
no_scaling : Socket → Option Socket
no_scaling s =
    if ltb 0 s.rwnd_scale
    then (do s1 ← resize_receive_buffer s default_rcv_buf_size; some (record s1 { swnd_scale = 0 }))
    else some s

unfoldable pub after_options : Parsed → Option Socket
unfolding no_scaling
after_options (returned s) = some s
after_options (finished s scaling fin) = do
  s1 ← if scaling then some s else no_scaling s
  some (if fin then s1 else record s1 { support_fin_ack = false })

unfoldable pub parse_options : Socket → List ℕ → ℕ → Option Socket
parse_options s bytes len = do
  parsed ← options_loop (suc len) s bytes len 0 false false
  after_options parsed

-- The bytes of `queue_connect_message`.
unfoldable pub connect_bytes : Socket → List ℕ
connect_bytes s =
    ctl_connect
    ∷ ((if s.support_wnd_scale then opt_wnd_scale ∷ 1 ∷ s.rwnd_scale ∷ [] else [])
        ++ (if s.support_fin_ack then opt_fin_ack ∷ 1 ∷ 0 ∷ [] else []))
