-- ===== src/Agent/Tcp/Connect.antt =====
-- The options of a connect message, as the other end reads them.
use libnice4android.Prelude.{
  ℕ, zero, suc, ◌+◌, ◌-◌, ◌<◌, ◌≤◌, ◌≡◌, refl, arith, Bool, true, false, ◌||◌, some, List, length,
  drop, get_elem?, get_or, ltb, ◌==◌, get_elem?-eq-get_or, ltb→lt, length-drop, IsDefined, defined,
  IsDefined-some, IsDefined-if, IsDefined-bind,
}
use libnice4android.Agent.Tcp.{Socket, opt_eol, opt_noop, opt_wnd_scale, opt_fin_ack}
use libnice4android.Agent.Tcp.Options.{
  apply_option, options_loop, after_options, parse_options, connect_bytes,
}

-- A socket that gets the connect message of another one, `s`, with both options, learns the scale of
-- its windows and that it supports FIN-ACK, and nothing else of it changes.
pub parse_options-connect_bytes :
    (s t : Socket)
    → s.support_wnd_scale ≡ true
    → s.support_fin_ack ≡ true
    → parse_options t (drop 1 (connect_bytes s)) (length (connect_bytes s) - 1)
      ≡ some (record t { swnd_scale = s.rwnd_scale; support_fin_ack = true })
unfolding parse_options connect_bytes options_loop apply_option after_options
parse_options-connect_bytes s t hw hf = rw (hw, hf) refl

-- A message without the options: the other end supports no FIN-ACK. Only an own window that is scaled
-- makes the receive buffer its default size again.
pub parse_options-connect_plain :
    (s t : Socket)
    → s.support_wnd_scale ≡ false
    → s.support_fin_ack ≡ false
    → t.rwnd_scale ≡ 0
    → parse_options t (drop 1 (connect_bytes s)) (length (connect_bytes s) - 1)
      ≡ some (record t { support_fin_ack = false })
unfolding parse_options connect_bytes options_loop apply_option after_options
parse_options-connect_plain s t hw hf hr = rw (hw, hf, hr) refl

pub get_elem?-IsDefined : (xs : List ℕ) (i : ℕ) → i < length xs → IsDefined (get_elem? xs i)
get_elem?-IsDefined xs i h = defined (get_or xs i 0) (get_elem?-eq-get_or xs i 0 h)

apply_option-IsDefined :
    (s : Socket) (kind : ℕ) (bytes : List ℕ) (len : ℕ)
    → len ≤ length bytes
    → IsDefined (apply_option s kind bytes len)
unfolding apply_option
apply_option-IsDefined s kind bytes len h =
    IsDefined-if (kind == opt_wnd_scale) _ _
      (λ is_scale.
        IsDefined-if (len == 1) _ _
          (λ one.
            IsDefined-bind (get_elem? bytes 0) _ (get_elem?-IsDefined bytes 0 (ground (arith, one)))
              (λ a e. IsDefined-some _))
          (λ other. IsDefined-some s))
      (λ is_other.
        IsDefined-if (kind == opt_fin_ack) _ _ (λ k. IsDefined-some _) (λ k. IsDefined-some s))

-- On any bytes the loop over the options ends, by itself or with a return, and reads only the bytes of
-- the message.
pub options_loop-IsDefined :
    (fuel : ℕ) (s : Socket) (bytes : List ℕ) (pos : ℕ) (scaling fin : Bool)
    → pos ≤ length bytes
    → length bytes < pos + fuel
    → IsDefined (options_loop fuel s bytes (length bytes) pos scaling fin)
unfolding options_loop
options_loop-IsDefined zero s bytes pos scaling fin inside h = absurd (omega arith)
options_loop-IsDefined (suc fuel) s bytes pos scaling fin inside h =
    let n = length bytes in
    IsDefined-if (ltb pos n) _ _
      (λ more.
        IsDefined-if (ltb n (pos + 1)) _ _ (λ short. IsDefined-some _)
          (λ here.
            IsDefined-bind (get_elem? bytes pos) _
              (get_elem?-IsDefined bytes pos (ltb→lt pos n more))
              (λ kind read_kind.
                IsDefined-if (kind == opt_eol) _ _ (λ eol. IsDefined-some _)
                  (λ not_eol.
                    IsDefined-if (kind == opt_noop) _ _
                      (λ noop.
                        options_loop-IsDefined fuel s bytes (pos + 1) scaling fin
                          (ground (arith, more)) (omega arith))
                      (λ not_noop.
                        IsDefined-if (ltb n (pos + 2)) _ _ (λ short. IsDefined-some _)
                          (λ room.
                            IsDefined-bind (get_elem? bytes (pos + 1)) _
                              (get_elem?-IsDefined bytes (pos + 1) (ground (arith, room)))
                              (λ opt_len read_len.
                                IsDefined-if (ltb n (pos + 2 + opt_len)) _ _
                                  (λ short. IsDefined-some _)
                                  (λ fits.
                                    IsDefined-bind
                                      (apply_option s kind (drop (pos + 2) bytes) opt_len) _
                                      (apply_option-IsDefined s kind (drop (pos + 2) bytes) opt_len
                                        (ground (arith, fits, length-drop (pos + 2) bytes)))
                                      (λ s1 applied.
                                        options_loop-IsDefined fuel s1 bytes (pos + 2 + opt_len)
                                          (scaling || kind == opt_wnd_scale)
                                          (fin || kind == opt_fin_ack) (ground (arith, fits))
                                          (omega arith))))))))))
      (λ end. IsDefined-some _)
