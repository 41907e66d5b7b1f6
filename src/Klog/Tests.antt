-- ===== src/Klog/Tests.antt =====
-- Texts in the log.
use pandos_plus.Base.{arith}
use pandos_plus.Klog.{Klog, klog_print_hex}
use pandos_plus.Klog.Text.{Digits, klog_print_hex-Digits}

-- near the end of the last line
abbrev near_end : Klog
near_end = record { klog_line_index = 63; klog_char_index = 39; klog_buffer = λ _ _. 0 }

klog_print_hex-Digits_example : Digits 0x2f near_end (klog_print_hex 0x2f near_end)
klog_print_hex-Digits_example = klog_print_hex-Digits 0x2f near_end (omega arith)
