-- ===== src/Nptp/Proxy/Overflow.antt =====
-- application/nptp_proxy.c: a configured pipe whose path is longer than the address of a socket has room
-- for.
use libcomm.Prelude.{
  ℕ, ℤ, ◌≡◌, ◌≢◌, ◌<◌, ◌↔◌, ap, sym, subst, arith, is_negative, is_zero, true, false, none, some,
  length, Option, List, ◌∷◌, ◌++◌,
}
use libcomm.Os.{World, Os, M, access, ◌>>◌}
use libcomm.Memory.{is_live, update_self}
use libcomm.Zoom.{zoom}
use libcomm.TcpClient.Api.{start_receiving}
use libcomm.IpcStreamClient.{client_connect, sun_path_size}
use libcomm.Returns.{Returns, Returns-mono}
use libcomm.Nptp.{State}
use libcomm.Nptp.Proxy.{server_path, connect_pipe}
use libcomm.Nptp.Xml.{Node, Nodes, find_tag, tag_pipe, parse_tag_pipe}
use libcomm.Nptp.Xml.Path.{IsWritten, named, parse_tag_pipe-server_path}

module _ (os : Os) (q h : ℕ) where
  connect_pipe_safe :
      (w : World State)
      → is_live w.history q ≡ true
      → h ≢ 0
      → is_live w.history h ≡ true
      → is_negative (w.store.clients h).fd ≡ false
      → is_zero (os.reply w.history (access (server_path (w.store.mappings q)))).value ≡ true
      → (connect_pipe os q h w ≢ none) ↔ (length (server_path (w.store.mappings q)) < sun_path_size)
  unfolding connect_pipe zoom client_connect start_receiving
  connect_pipe_safe w live nz live' fd there = ground arith

  -- A run that ends in `w1` goes on from there.
  onwards :
      {A : Type 0} (r : Option (A × World State)) (w w1 : World State)
      → Returns r (λ _ w'. w' ≡ w1)
      → (let m : M State A = λ _. r in (m >> connect_pipe os q h) w) ≡ connect_pipe os q h w1
  onwards none w w1 e = absurd e
  onwards (some (a, w')) w w1 e = ap (connect_pipe os q h) e

  module _ (content : Node → Option (List ℕ)) (atoi : List ℕ → ℤ) where
    -- Let the first PIPE tag of an allocated mapping have as its content blanks and line ends,
    -- then a path, a slash and a name without a slash, and then nothing or the end of the line
    -- and any rest, where the path, the slash and the name do not start with a blank, have no
    -- line end in them and at most 160 characters, and the name less than 80. Let the pipe be
    -- there, and the client at h, which is not NULL, be allocated and have a descriptor. Then
    -- parsing the tag and connecting the client to the pipe that the mapping then has meets no
    -- fault exactly if the path, the slash and the name have fewer characters than sun_path, 108.
    pub configured_pipe_connects :
        (children : Nodes) (n : Node) (blanks path name rest : List ℕ) (w : World State)
        → is_live w.history q ≡ true
        → find_tag tag_pipe children ≡ some n
        → content n ≡ some (blanks ++ ((path ++ b'/' ∷ name) ++ rest))
        → IsWritten blanks path name rest
        → h ≢ 0
        → is_live w.history h ≡ true
        → is_negative (w.store.clients h).fd ≡ false
        → is_zero (os.reply w.history (access (path ++ b'/' ∷ name))).value ≡ true
        → ((parse_tag_pipe os content atoi children q >> connect_pipe os q h) w ≢ none)
          ↔ (length (path ++ b'/' ∷ name) < sun_path_size)
    configured_pipe_connects children n blanks path name rest w live tag text v nz live' fd there =
        subst (λ o. (o ≢ none) ↔ (length (path ++ b'/' ∷ name) < sun_path_size))
          (sym (
            onwards (parse_tag_pipe os content atoi children q w) w w1 (
              Returns-mono (parse_tag_pipe os content atoi children q w) _ _
                (parse_tag_pipe-server_path os content atoi children n q blanks path name rest w
                  live tag text v)
                (λ _ w' x. x.1))))
          (subst (λ s. (connect_pipe os q h w1 ≢ none) ↔ (length s < sun_path_size)) whole
            (connect_pipe_safe w1 live nz live' fd (
              subst (λ s. is_zero (os.reply w.history (access s)).value ≡ true) (sym whole) there)))
      where
        w1 : World State
        w1 = named q path name w

        whole : server_path (w1.store.mappings q) ≡ path ++ b'/' ∷ name
        whole = ap server_path (
            update_self w.store.mappings q
              (record (w.store.mappings q) { pipe_path = path; pipe_name = name }))
