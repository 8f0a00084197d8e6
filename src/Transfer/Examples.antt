-- ===== src/Transfer/Examples.antt =====
-- The theorems about transfers at concrete inputs, and tests.
use mstone.Base.{
  ℕ, zero, suc, ◌≡◌, refl, true, false, List, [], ◌∷◌, ◌++◌, some, arith, pos, negsuc, Bytes, codes,
  NoNul, contains, starts_with, c_string,
}
use mstone.Transfer.{
  Reply, moved, interrupted, again, broken, Turn, Round, InTime, read_reply, retry_read,
  write_reply, write_error, retry_write, resume, after_write, send_command,
}
use mstone.Transfer.Writes.{Sending, send_command_all}
use mstone.Transfer.Line.{
  line_length, end_of_line, after_line_read, read_response, Answering, read_response_line,
}
use mstone.Transfer.Command.{do_command_response, Exchanging, do_command_response-Exchanging}
use mstone.Transfer.Output.{send_output, Outputting, send_output_all}
use mstone.Transfer.Message.{retr_msg, judge, conclude, after_read, retrieve, terminator, Ending}
use mstone.Transfer.Message.Exact.{retr_msg-Ending}
use mstone.Transfer.Message.Progress.{Succeeds, retr_msg-Succeeds}

abbrev turn : Reply → Turn
turn reply = record { expired = false; ready = true; reply = reply; ready_again = true }

abbrev round : List Turn → Round
round turns = record { turns = turns; expired = false }

abbrev crlf : Bytes
crlf = 13 ∷ 10 ∷ []

-- A message of one line; the next response follows it.
abbrev mail : Bytes
mail = codes "Hi" ++ terminator ++ codes "+OK"

-- The network cuts the stream inside the terminator.
abbrev cut : List Round
cut =
    round (turn interrupted ∷ turn again ∷ turn (moved 4) ∷ [])
    ∷ round (turn (moved 1) ∷ [])
    ∷ round (turn (moved 2) ∷ [])
    ∷ round (turn (moved 3) ∷ [])
    ∷ []

abbrev one_by_one : ℕ → List Round
one_by_one zero = []
one_by_one (suc n) = round (turn (moved 1) ∷ []) ∷ one_by_one n

cut_message : retr_msg cut mail ≡ some (record { ret = pos 7; bytesread = 7; unread = codes "+OK" })
unfolding retrieve after_read conclude judge retry_read read_reply contains starts_with c_string
cut_message = refl

-- A message whose text has "-ERR" at the start of the 5 bytes that the scratch buffer keeps is
-- taken for an error response.
false_error :
    retr_msg (round (turn (moved 8) ∷ []) ∷ one_by_one 20) (codes "abc-ERR." ++ terminator)
    ≡ some (record { ret = negsuc 0; bytesread = 9; unread = 10 ∷ b'.' ∷ 13 ∷ 10 ∷ [] })
unfolding retrieve after_read conclude judge retry_read read_reply contains starts_with c_string
false_error = refl

-- A response that fills the buffer has its terminating NUL written behind the end of it.
full_response :
    read_response (round (turn (moved 9) ∷ []) ∷ []) 4 [] (codes "+OK no newline")
    ≡ some (record { ret = pos 0; buffer = codes "+OK "; unread = codes "no newline" })
unfolding read_response after_line_read end_of_line line_length retry_read read_reply c_string
full_response = refl

mail-NoNul : NoNul mail
mail-NoNul = omega arith

cut-InTime : InTime cut
cut-InTime = ground arith

retr_msg-Ending_example : Ending [] mail 0 (retr_msg cut mail)
retr_msg-Ending_example = retr_msg-Ending cut mail cut-InTime mail-NoNul

retr_msg-Succeeds_example : Succeeds (retr_msg (one_by_one 11) mail)
unfolding contains starts_with
retr_msg-Succeeds_example =
    retr_msg-Succeeds (one_by_one 11) mail (ground arith) (omega arith) mail-NoNul refl refl

abbrev quit : Bytes
quit = codes "QUIT" ++ crlf

abbrev slow_writes : List Round
slow_writes = round (turn (moved 2) ∷ turn broken ∷ []) ∷ round (turn (moved 9) ∷ []) ∷ []

send_command_all_example : Sending quit 0 [] (send_command slow_writes quit 0 [])
send_command_all_example = send_command_all slow_writes quit (ground arith)

slow_quit : send_command slow_writes quit 0 [] ≡ some (record { ret = pos 6; wire = quit })
unfolding send_command after_write resume retry_write write_reply write_error
slow_quit = refl

read_response_line_example :
    Answering (codes "+OK bye" ++ crlf) 80 (read_response cut 80 [] (codes "+OK bye" ++ crlf))
read_response_line_example =
    read_response_line cut 80 (codes "+OK bye" ++ crlf) cut-InTime (omega arith)

do_command_response-Exchanging_example :
    Exchanging quit
      (codes "+OK bye" ++ crlf)
      (do_command_response slow_writes cut quit 80 (codes "+OK bye" ++ crlf))
do_command_response-Exchanging_example =
    do_command_response-Exchanging slow_writes cut quit 80 (codes "+OK bye" ++ crlf) (ground arith)
      cut-InTime (omega arith)

send_output_all_example :
    Outputting quit (send_output (interrupted ∷ moved 3 ∷ moved 3 ∷ []) quit [])
send_output_all_example = send_output_all (interrupted ∷ moved 3 ∷ moved 3 ∷ []) quit
