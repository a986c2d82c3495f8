-- ===== src/Command/Decode.antt =====
-- src/common/zm_protocol.c: `zm_protocol_buffer2command`, from bytes to a command.
use deconz.Prelude.{
  ℕ, ◌+◌, ◌/◌, ◌%◌, ◌&&◌, Option, none, some, List, [], ◌∷◌, ltb, leb, ◌==◌, if◌then◌else◌, get_or,
  get_elem?, take, drop, set, length,
}
use deconz.Command.{
  zm_header_length, Command, TypeDescr, type_table, ParseStatus, parse_ok, wrong_stored_length,
  char_field_overflow, dbuf_len_larger_data, dbuf_len_too_large, dbuf_incomplete, unknown_field,
  no_fields, unknown_command, command_buf_too_small, read_overflow, get_u16, write,
  zm_max_buffer_len, zm_cmd_status,
}

-- `p` and `wp` of `zm_protocol_buffer2command`, as offsets, and the union.
pub record Cursor : Type 0 where
  pub p : ℕ
  pub wp : ℕ
  pub payload : List ℕ

-- What the loop over the fields ends with. A failed one keeps what it has written.
pub data Parsed : Type 0 where
  going : Cursor → Parsed
  failed : ParseStatus → List ℕ → Parsed

-- `case 'c'`
unfoldable pub parse_char : List ℕ → ℕ → Cursor → Parsed
parse_char bytes cmd c =
    if leb (c.p + 1) (length bytes)
    then going
        (record { p = c.p + 1; wp = c.wp + 1; payload = set c.payload c.wp (get_or bytes c.p 0) })
    else if cmd == zm_cmd_status
    then going (record { p = c.p; wp = c.wp + 1; payload = set c.payload c.wp 0 })
    else failed char_field_overflow c.payload

-- `case 'D'`
unfoldable pub parse_dbuf : List ℕ → Cursor → Parsed
parse_dbuf bytes c =
    if leb (c.p + 2) (length bytes)
    then (let len = get_u16 bytes c.p in
        let payload = write c.payload 0 ((len % 256) ∷ (len / 256) ∷ []) in
        if ltb (length bytes) (c.p + 2 + len)
        then failed dbuf_len_larger_data payload
        else if ltb zm_max_buffer_len len
        then failed dbuf_len_too_large payload
        else going (record {
          p = c.p + 2 + len;
          wp = c.wp;
          payload = write payload 2 (take len (drop (c.p + 2) bytes));
        }))
    else failed dbuf_incomplete c.payload

-- The test behind the `switch`.
unfoldable pub check_read : List ℕ → Parsed → Parsed
check_read bytes (failed e m) = failed e m
check_read bytes (going c) =
    if ltb (length bytes) c.p then failed read_overflow c.payload else going c

-- One round of the loop.
unfoldable pub parse_field : List ℕ → ℕ → ℕ → Cursor → Parsed
unfolding parse_char parse_dbuf check_read
parse_field bytes cmd f c =
    if f == b'c'
    then check_read bytes (parse_char bytes cmd c)
    else if f == b'D'
    then check_read bytes (parse_dbuf bytes c)
    else failed unknown_field c.payload

unfoldable pub parse_fields : List ℕ → ℕ → List ℕ → Parsed → Parsed
unfolding parse_field
parse_fields bytes cmd fs (failed e m) = failed e m
parse_fields bytes cmd [] (going c) = going c
parse_fields bytes cmd (f ∷ fs) (going c) = parse_fields bytes cmd fs (parse_field bytes cmd f c)

abbrev pub close : Command → Parsed → Command × ParseStatus
close cmd (going c) = (record cmd { payload = c.payload }, parse_ok)
close cmd (failed e m) = (record cmd { payload = m }, e)

-- The fields of a command that is known.
unfoldable pub parse_known : List ℕ → Command → Option (List ℕ) → Command × ParseStatus
unfolding parse_fields
parse_known bytes cmd none = (cmd, no_fields)
parse_known bytes cmd (some fs) =
    close cmd
      (parse_fields bytes cmd.cmd fs (going (record { p = 5; wp = 0; payload = cmd.payload })))

-- Behind the header: a known command with a length field, or an error.
unfoldable pub parse_entry : List ℕ → Command → Option TypeDescr → Command × ParseStatus
unfolding parse_known
parse_entry bytes cmd none = (cmd, unknown_command)
parse_entry bytes cmd (some t) =
    if t.cmd == cmd.cmd && leb 5 (length bytes)
    then if length bytes == get_u16 bytes 3
      then parse_known bytes cmd t.fields
      else (cmd, wrong_stored_length)
    else (cmd, unknown_command)

-- `zm_protocol_buffer2command` on `data[0 .. len)`, neither pointer null; `cmd` is the memory that
-- it fills. The table has ZM_CMD_MAX entries, so its end is the test `cmd->cmd < ZM_CMD_MAX`.
unfoldable pub buffer2command : List ℕ → Command → Command × ParseStatus
unfolding parse_entry
buffer2command bytes cmd =
    if leb zm_header_length (length bytes)
    then (let cmd' = record cmd {
      cmd = get_or bytes 0 0;
      seq = get_or bytes 1 0;
      status = get_or bytes 2 0;
    } in
        parse_entry bytes cmd' (get_elem? type_table cmd'.cmd))
    else (cmd, command_buf_too_small)
