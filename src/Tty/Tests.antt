-- ===== src/Tty/Tests.antt =====
-- Tests and witnesses of the terminal.
use wasmux.Prelude.{◌≡◌, refl, some, arith, length, replicate}
use wasmux.Tty.{Termios, nccs_kernel, termios_bytes, encode, decode}
use wasmux.Tty.Layout.{decode-encode}

abbrev some_termios : Termios
some_termios = record {
  iflag = 0o2400;
  oflag = 5;
  cflag = 0o277;
  lflag = 0o100073;
  line = 0;
  cc_ = replicate nccs_kernel 3;
}

decode-encode_example :
    (length (encode some_termios) ≡ termios_bytes)
    × (decode (encode some_termios) ≡ some some_termios)
decode-encode_example =
    decode-encode some_termios (omega arith) (omega arith) (omega arith) (omega arith) refl
