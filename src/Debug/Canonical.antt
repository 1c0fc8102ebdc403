-- ===== src/Debug/Canonical.antt =====
-- The two tests of a canonical address in src/2006-11-02/kvm-module/debug.c.
