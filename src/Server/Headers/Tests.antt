-- ===== src/Server/Headers/Tests.antt =====
-- Requests that arrive in pieces.
use ferretptimize.Common.{◌≡◌, refl, true, some, none, [], ◌∷◌, take, drop, arith, replicate, All}
use ferretptimize.Common.Bytes.{Bytes, codes}
use ferretptimize.Server.Headers.{
  boundary_from, find_header_boundary, Round, Block, read_loop, read_header_block, read_rest,
  receive_body, got_body, cut_off,
}
use ferretptimize.Server.Headers.Received.{
  Willing, IsBlock, read_header_block-IsBlock, receive_body-take,
}

abbrev stream : Bytes
stream = codes "PUT / HTTP/1.1\r\n\r\nbody and more"

abbrev in_fives : Round
in_fives = record { grown = true; granted = 5 }

abbrev block : Block
block = record { buffer = take 20 stream; header_len = 18; stream = drop 20 stream }

boundary_of_stream : find_header_boundary stream ≡ some 18
unfolding boundary_from
boundary_of_stream = refl

no_boundary : find_header_boundary (codes "\r\n\r") ≡ none
unfolding boundary_from
no_boundary = refl

read_in_fives : read_header_block true (replicate 18 in_fives) stream ≡ some block
unfolding read_header_block read_loop boundary_from
read_in_fives = refl

body_in_twos : receive_body true (2 ∷ 2 ∷ []) 4 block ≡ got_body (codes "body")
unfolding receive_body read_rest
body_in_twos = refl

eof_in_body : receive_body true (2 ∷ []) 6 block ≡ cut_off
unfolding receive_body read_rest
eof_in_body = refl

read_header_block-IsBlock_example :
    (b : Block) × (read_header_block true (replicate 18 in_fives) stream ≡ some b)
    × IsBlock b 18 stream
unfolding boundary_from
read_header_block-IsBlock_example =
    read_header_block-IsBlock (replicate 18 in_fives) stream 18 refl (omega arith) willing
      (omega arith)
  where
    willing : All Willing (replicate 18 in_fives)
    willing = ground arith

receive_body-take_example :
    receive_body true (2 ∷ 2 ∷ 9 ∷ 9 ∷ []) 4 block ≡ got_body (take 4 (drop 18 stream))
receive_body-take_example =
    receive_body-take (2 ∷ 2 ∷ 9 ∷ 9 ∷ []) 4 18 block stream
      (record { ends = refl; inside = omega arith; kept = refl }) (omega arith) (omega arith)
      (omega arith) (ground arith) (omega arith)
