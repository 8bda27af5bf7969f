-- ===== src/Proxy/Http/Shared.antt =====
-- The HTTP handshake keeps the shared state.
use multi_proxy.Dsn.{HttpDsn}
use multi_proxy.Str.{is_empty}
use multi_proxy.Net.{Env, Stream, M, read, from_result, connect, write_all}
use multi_proxy.Net.Run.{
  Keeps, Kept-refl, next-Kept, >>=-Keeps, from_result-Keeps, if-Keeps, connect-Keeps, read-Keeps,
  write_all-Keeps,
}
use multi_proxy.Proxy.Http.{establish_http, read_answer, read_round, check_status}
use multi_proxy.Base.{Bytes, Text, [], suc, zero, ℕ, ◌++◌}

module _ (env : Env) where
  read_round-Keeps :
      (rest : Bytes → Stream → M (Bytes × Stream)) (buf : Bytes) (r : Bytes × Stream)
      → ((b : Bytes) (s : Stream) → Keeps (rest b s))
      → Keeps (read_round env rest buf r)
  unfolding read_round
  read_round-Keeps rest buf (bs, s) h =
      if-Keeps (is_empty bs) _ _ Kept-refl (if-Keeps _ _ _ Kept-refl (h (buf ++ bs) s))

  read_answer-Keeps : (fuel : ℕ) (buf : Bytes) (s : Stream) → Keeps (read_answer env fuel buf s)
  unfolding read_answer
  read_answer-Keeps zero buf s w = Kept-refl w
  read_answer-Keeps (suc fuel) buf s w =
      next-Kept (read env 256 s w) (read_round env (read_answer env fuel) buf)
        (read-Keeps env 256 s w)
        (λ r. read_round-Keeps (read_answer env fuel) buf r (read_answer-Keeps fuel))

  pub establish_http-Keeps :
      (host : Text) (port : ℕ) (d : HttpDsn) (limit : ℕ)
      → Keeps (establish_http env host port d limit)
  unfolding establish_http
  establish_http-Keeps host port d limit =
      >>=-Keeps (connect env limit _ _ _) _ (connect-Keeps env limit _ _ _) λ up.
        >>=-Keeps (write_all env _ up) _ (write_all-Keeps env _ up) λ up2.
          >>=-Keeps (read_answer env 1025 [] up2) _ (read_answer-Keeps 1025 [] up2) λ r.
            >>=-Keeps (from_result (check_status r.0)) _ (from_result-Keeps (check_status r.0))
              λ u. Kept-refl
