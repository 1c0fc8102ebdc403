-- ===== src/Status.antt =====
-- The results of the ioctls: 0 or a negative error number.
pub data Errno : Type 0 where
  einval eexist enomem eagain enoent efault eintr eopnotsupp : Errno

pub data Status : Type 0 where
  success : Status
  error : Errno → Status
