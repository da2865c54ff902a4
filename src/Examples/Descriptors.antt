-- ===== src/Examples/Descriptors.antt =====
-- The numbers that Linux gives the constants of USB.
use aacs.Server.Descriptors.{UsbConstants}

abbrev pub linux : UsbConstants
linux = record {
  descriptors_magic_v2 = 3;
  strings_magic = 2;
  has_fs_desc = 1;
  has_hs_desc = 2;
  all_ctrl_recip = 64;
  dt_interface = 4;
  dt_endpoint = 5;
  class_vendor_spec = 0xff;
  subclass_vendor_spec = 0xff;
  dir_in = 0x80;
  dir_out = 0;
  xfer_bulk = 2;
}
