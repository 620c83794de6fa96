-- ===== src/Process/Tags.antt =====
-- Tags and units of the messages between client and handler, and flags of a reader.
use openct.Prelude.{ℕ}

-- src/include/openct/protocol.h
abbrev pub tag_reader_name : ℕ
tag_reader_name = 0x00

abbrev pub tag_reader_units : ℕ
tag_reader_units = 0x01

abbrev pub tag_card_status : ℕ
tag_card_status = 0x02

abbrev pub tag_atr : ℕ
tag_atr = 0x03

abbrev pub tag_lock : ℕ
tag_lock = 0x04

abbrev pub tag_card_response : ℕ
tag_card_response = 0x05

abbrev pub tag_timeout : ℕ
tag_timeout = 0x80

abbrev pub tag_message : ℕ
tag_message = 0x81

abbrev pub tag_locktype : ℕ
tag_locktype = 0x82

abbrev pub tag_pin_data : ℕ
tag_pin_data = 0x83

abbrev pub tag_card_request : ℕ
tag_card_request = 0x84

abbrev pub tag_address : ℕ
tag_address = 0x85

abbrev pub tag_data : ℕ
tag_data = 0x86

abbrev pub tag_count : ℕ
tag_count = 0x87

abbrev pub tag_protocol : ℕ
tag_protocol = 0x88

abbrev pub unit_reader : ℕ
unit_reader = 0x10

abbrev pub unit_display : ℕ
unit_display = 0x11

abbrev pub unit_keypad : ℕ
unit_keypad = 0x12

-- src/include/openct/ifd.h
abbrev pub reader_display : ℕ
reader_display = 0x0100

abbrev pub reader_keypad : ℕ
reader_keypad = 0x0200
